-- ===== src/Migrations/Tests.antt =====
-- The theorems on the revisions at a schema of tables in memory: a table is its items, columns, indexes and constraints,
-- the newest first.
use drift_triage_co_pilot.Prelude.{
  ◌≡◌, refl, inl, inr, Bool, true, false, String, ◌==◌, string_eq, eq_refl, none, List, [], ◌∷◌,
  Result, Exception, ok, raised, other_error, ◌>>=◌, bind_parts, ok_injective, sym, map, arith,
  Bool-cases, if◌then◌else◌,
}
use drift_triage_co_pilot.Migrations.{Operations, IsPostgres, Column}
use drift_triage_co_pilot.Migrations.Versions.{
  Database, upgrade_init, downgrade_init, upgrade_webhook_state, downgrade_webhook_state,
  run_migrations_online,
}
use drift_triage_co_pilot.Migrations.RoundTrip.{downgrade-upgrade}
use drift_triage_co_pilot.Migrations.Head.{fresh, run_migrations_online-raises}

data Item : Type 0 where
  column index constraint : String → Item

abbrev item_beq : Item → Item → Bool
item_beq (column a) (column b) = a == b
item_beq (index a) (index b) = a == b
item_beq (constraint a) (constraint b) = a == b
item_beq x y = false

item_beq_refl : (x : Item) → item_beq x x ≡ true
item_beq_refl (column a) = eq_refl a
item_beq_refl (index a) = eq_refl a
item_beq_refl (constraint a) = eq_refl a

abbrev has_item : Item → List Item → Bool
has_item x [] = false
has_item x (y ∷ ys) = if item_beq y x then true else has_item x ys

abbrev Tables : Type 0
Tables = List (String × List Item)

abbrev refusal : Exception
refusal = other_error "refused"

-- The items of a table changed by `g`.
abbrev at_table : String → (List Item → Result (List Item)) → Tables → Result Tables
at_table t g [] = raised refusal
at_table t g ((u, is) ∷ ts) =
    let rest = at_table t g ts in
    if u == t then (g is >>= λ js. ok ((u, js) ∷ ts)) else (rest >>= λ us. ok ((u, is) ∷ us))

abbrev insert_item : Item → List Item → Result (List Item)
insert_item x is = if has_item x is then raised refusal else ok (x ∷ is)

abbrev remove : Item → List Item → Result (List Item)
remove x [] = raised refusal
remove x (y ∷ ys) =
    let rest = remove x ys in if item_beq y x then ok ys else (rest >>= λ zs. ok (y ∷ zs))

abbrev holds : String → Item → Tables → Bool
holds t x [] = false
holds t x ((u, is) ∷ ts) = let rest = holds t x ts in if u == t then has_item x is else rest

abbrev columns_as_items : List Column → List Item
columns_as_items [] = []
columns_as_items (c ∷ cs) = column c.name ∷ columns_as_items cs

abbrev has_table : String → Tables → Bool
has_table t [] = false
has_table t ((u, is) ∷ ts) = let rest = has_table t ts in if u == t then true else rest

abbrev create : String → List Column → Tables → Result Tables
create t cs ts = if has_table t ts then raised refusal else ok ((t, columns_as_items cs) ∷ ts)

abbrev drop_first : String → Tables → Result Tables
drop_first t [] = raised refusal
drop_first t ((u, is) ∷ ts) =
    let rest = drop_first t ts in if u == t then ok ts else (rest >>= λ us. ok ((u, is) ∷ us))

abbrev memory : Operations Tables
memory = record {
  create_extension = λ e ts. ok ts;
  create_table = λ t cs ks ts. create t cs ts;
  drop_table = λ t ts. drop_first t ts;
  create_index = λ i t cs ts. at_table t (insert_item (index i)) ts;
  drop_index = λ i t ts. at_table t (remove (index i)) ts;
  add_column = λ t c ts. at_table t (insert_item (column c.name)) ts;
  drop_column = λ t n ts. at_table t (remove (column n)) ts;
  create_unique_constraint = λ k t cs ts. at_table t (insert_item (constraint k)) ts;
  drop_constraint = λ k t ts. at_table t (remove (constraint k)) ts;
  has_column = λ t n ts. holds t (column n) ts;
}

remove-insert_item : (x : Item) (is js : List Item) → insert_item x is ≡ ok js → remove x js ≡ ok is
remove-insert_item x is js done = ground (arith, item_beq_refl x)

insert_item-has : (x : Item) (is js : List Item) → insert_item x is ≡ ok js → has_item x js ≡ true
insert_item-has x is js done = ground (arith, item_beq_refl x)

insert_item-refused :
    (x : Item) (is : List Item) → has_item x is ≡ true → insert_item x is ≡ raised refusal
insert_item-refused x is has = rw has refl

insert_item-keeps :
    (x y : Item) (is js : List Item)
    → has_item y is ≡ true
    → insert_item x is ≡ ok js
    → has_item y js ≡ true
insert_item-keeps x y is js has done = ground arith

remove-at_table :
    (t : String) (x : Item) (ts us : Tables)
    → at_table t (insert_item x) ts ≡ ok us
    → at_table t (remove x) us ≡ ok ts
remove-at_table t x [] us done = ground (arith, done)
remove-at_table t x ((u, is) ∷ ts) us done = elim (Bool-cases (u == t)) [
  | inl here ↦
      let (js, e, r) = bind_parts (insert_item x is) _ (rw (here, at_table) at done) in
      let at : us ≡ ((u, js) ∷ ts) = sym (ok_injective _ us r) in
      rw at (rw here (rw (remove-insert_item x is js e) refl))
  | inr there ↦
      let (vs, e, r) =
        bind_parts (at_table t (insert_item x) ts) _ (rw (there, at_table) at done) in
      let at : us ≡ ((u, is) ∷ vs) = sym (ok_injective _ us r) in
      rw at (rw there (rw (remove-at_table t x ts vs e) refl))
]

holds-at_table :
    (t : String) (x : Item) (ts us : Tables)
    → at_table t (insert_item x) ts ≡ ok us
    → holds t x us ≡ true
holds-at_table t x [] us done = ground (arith, done)
holds-at_table t x ((u, is) ∷ ts) us done = elim (Bool-cases (u == t)) [
  | inl here ↦
      let (js, e, r) = bind_parts (insert_item x is) _ (rw (here, at_table) at done) in
      rw (sym (ok_injective _ us r)) (rw here (insert_item-has x is js e))
  | inr there ↦
      let (vs, e, r) =
        bind_parts (at_table t (insert_item x) ts) _ (rw (there, at_table) at done) in
      rw (sym (ok_injective _ us r)) (rw there (holds-at_table t x ts vs e))
]

refused-at_table :
    (t : String) (x : Item) (ts : Tables)
    → holds t x ts ≡ true
    → (e : Exception) × (at_table t (insert_item x) ts ≡ raised e)
refused-at_table t x [] has = ground (arith, has)
refused-at_table t x ((u, is) ∷ ts) has = elim (Bool-cases (u == t)) [
  | inl here ↦ (refusal, rw here (rw (insert_item-refused x is (rw (here, holds) at has)) refl))
  | inr there ↦
      let (e, refused) = refused-at_table t x ts (rw (there, holds) at has) in
      (e, rw there (rw refused refl))
]

kept-at_table :
    (t : String) (x y : Item) (ts us : Tables)
    → holds t y ts ≡ true
    → at_table t (insert_item x) ts ≡ ok us
    → holds t y us ≡ true
kept-at_table t x y [] us has done = ground (arith, done)
kept-at_table t x y ((u, is) ∷ ts) us has done = elim (Bool-cases (u == t)) [
  | inl here ↦
      let (js, e, r) = bind_parts (insert_item x is) _ (rw (here, at_table) at done) in
      rw (sym (ok_injective _ us r))
        (rw here (insert_item-keeps x y is js (rw (here, holds) at has) e))
  | inr there ↦
      let (vs, e, r) =
        bind_parts (at_table t (insert_item x) ts) _ (rw (there, at_table) at done) in
      rw (sym (ok_injective _ us r))
        (rw there (kept-at_table t x y ts vs (rw (there, holds) at has) e))
]

drop-create :
    (t : String) (cs : List Column) (ts us : Tables)
    → create t cs ts ≡ ok us
    → drop_first t us ≡ ok ts
drop-create t cs ts us done = ground (arith, eq_refl t)

memory-IsPostgres : IsPostgres memory
memory-IsPostgres = record {
  drop-create_table = λ t cs ks s s' done. drop-create t cs s s' done;
  drop-create_index = λ i t cs s s' done. remove-at_table t (index i) s s' done;
  drop-add_column = λ t c s s' done. remove-at_table t (column c.name) s s' done;
  drop-create_unique = λ k t cs s s' done. remove-at_table t (constraint k) s s' done;
  added = λ t c s s' done. holds-at_table t (column c.name) s s' done;
  added_again = λ t c s has. refused-at_table t (column c.name) s has;
  kept_by_column =
      λ t c name s s' has done. kept-at_table t (column c.name) (column name) s s' has done;
  kept_by_unique =
      λ k t cs name s s' has done. kept-at_table t (constraint k) (column name) s s' has done;
}

abbrev empty : Tables
empty = []

abbrev returned : Result Tables → Tables
returned (ok ts) = ts
returned (raised e) = []

-- The schemas that the first revision and the second make.
abbrev of_init : Tables
of_init = returned (upgrade_init memory empty)

abbrev of_webhook_state : Tables
of_webhook_state = returned (upgrade_webhook_state memory of_init)

upgrade_init-empty : upgrade_init memory empty ≡ ok of_init
unfolding upgrade_init
upgrade_init-empty = refl

upgrade_webhook_state-of_init : upgrade_webhook_state memory of_init ≡ ok of_webhook_state
unfolding upgrade_init upgrade_webhook_state
upgrade_webhook_state-of_init = refl

of_webhook_state_tables :
    map (λ t. t.0) of_webhook_state
    ≡ "drift_alert_state" ∷ "hil_approvals" ∷ "promotion_events" ∷ "predictions" ∷ "investigations"
      ∷ []
unfolding upgrade_init upgrade_webhook_state
of_webhook_state_tables = refl

downgrade-upgrade_example :
    (downgrade_webhook_state memory of_webhook_state ≡ ok of_init)
    × ((b : Tables) × ((memory.create_extension "pgvector" empty
            >>= memory.create_extension "uuid-ossp")
          ≡ ok b)
        × (downgrade_init memory of_init ≡ ok b))
downgrade-upgrade_example =
    downgrade-upgrade memory memory-IsPostgres empty of_init of_webhook_state upgrade_init-empty
      upgrade_webhook_state-of_init

abbrev fresh_database : Database Tables
fresh_database = record { schema = empty; version = none }

run_migrations_online-raises_example :
    (e : Exception) × (run_migrations_online memory fresh_database ≡ (raised e, fresh_database))
run_migrations_online-raises_example =
    run_migrations_online-raises memory memory-IsPostgres fresh_database (fresh empty)
