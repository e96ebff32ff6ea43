-- ===== src/Registry/Choice.antt =====
-- Every name of the options chooses the module of its type.
use mathlib.Core.Path.{subst}
use mathlib.Core.Option.{none-ne-some, some-injective}
use reprompi_dev.Prelude.{
  ℕ, zero, suc, ◌≡◌, ◌≢◌, ◌⊎◌, inl, inr, refl, ap, sym, ◌∙◌, true, false, Option, none, some, List,
  [], ◌∷◌, get_elem?, Bool-cases,
}
use reprompi_dev.Prelude.Int.{ℤ, pos, negsuc}
use reprompi_dev.Prelude.Text.{Str, same, eq-same, same_refl}
use reprompi_dev.Registry.{
  SyncType, Module, sync_type_from, get_sync_type, get_name_from_sync_type, name_from,
  proc_sync_options, sync_modules, module_index_from, get_sync_module_index, module_at,
  init_proc_sync_module,
}

-- Nothing in the list has the name, or one entry of it does and gives the type.
Found : ℤ → List SyncType → Str → Type 0
Found type list name =
    ((sync_type_from type list name ≡ type)
      × ((i : ℕ) (t : SyncType) → get_elem? list i ≡ some t → t.name ≢ name))
    ⊎ ((i : ℕ) × (t : SyncType) × (get_elem? list i ≡ some t)
        × (t.name ≡ name)
        × (sync_type_from type list name ≡ pos t.type))

absent_cons :
    (t : SyncType) (list : List SyncType) (name : Str)
    → same name t.name ≡ false
    → ((i : ℕ) (u : SyncType) → get_elem? list i ≡ some u → u.name ≢ name)
    → (i : ℕ) (u : SyncType) → get_elem? (t ∷ list) i ≡ some u
    → u.name ≢ name
absent_cons t list name h absent zero u g e =
    let named : t.name ≡ name = ap (λ v. v.name) (some-injective t u g) ∙ e in
    let equal : same name t.name ≡ true = ap (same name) named ∙ same_refl name in cc
absent_cons t list name h absent (suc i) u g e = absent i u g e

sync_type_from-Found : (type : ℤ) (list : List SyncType) (name : Str) → Found type list name
unfolding Found sync_type_from
sync_type_from-Found type [] name = inl (refl, λ i t h. absurd (none-ne-some t h))
sync_type_from-Found type (t ∷ list) name = elim (Bool-cases (same name t.name)) [
  | inl h ↦ elim (sync_type_from-Found (pos t.type) list name) [
    | inl (m, absent) ↦ inr (0, t, refl, sym (eq-same name t.name h), rw h m)
    | inr (i, u, g, e, m) ↦ inr (suc i, u, g, e, rw h m)
  ]
  | inr h ↦ elim (sync_type_from-Found type list name) [
    | inl (m, absent) ↦ inl (rw h m, absent_cons t list name h absent)
    | inr (i, u, g, e, m) ↦ inr (suc i, u, g, e, rw h m)
  ]
]

abbrev chosen : ℕ → Option Module
chosen type = module_at (module_index_from 0 sync_modules (pos type))

-- the module of the type of an option
Serves : SyncType → Type 0
Serves t = (m : Module) × (chosen t.type ≡ some m) × (m.procsync ≡ t.type)

serve :
    (t u : SyncType) (m : Module) → u ≡ t → chosen u.type ≡ some m → m.procsync ≡ u.type → Serves t
unfolding Serves
serve t u m e c p = (m, ap (λ v. chosen v.type) (sym e) ∙ c, p ∙ ap (λ v. v.type) e)

all_served : (i : ℕ) (t : SyncType) → get_elem? proc_sync_options i ≡ some t → Serves t
unfolding module_index_from
all_served zero t h = serve t _ _ (some-injective _ t h) refl refl
all_served (suc zero) t h = serve t _ _ (some-injective _ t h) refl refl
all_served (suc (suc zero)) t h = serve t _ _ (some-injective _ t h) refl refl
all_served (suc (suc (suc zero))) t h = serve t _ _ (some-injective _ t h) refl refl
all_served (suc (suc (suc (suc zero)))) t h = serve t _ _ (some-injective _ t h) refl refl
all_served (suc (suc (suc (suc (suc zero))))) t h = serve t _ _ (some-injective _ t h) refl refl
all_served (suc (suc (suc (suc (suc (suc i)))))) t h = absurd (none-ne-some t h)

-- A name of the options chooses a registered module of the option's type; any other name is an error.
pub init_proc_sync_module_lem :
    (name : Str)
    → ((init_proc_sync_module (some name) ≡ none)
        × ((i : ℕ) (t : SyncType) → get_elem? proc_sync_options i ≡ some t → t.name ≢ name))
      ⊎ ((i : ℕ) × (t : SyncType) × (m : Module) × (get_elem? proc_sync_options i ≡ some t)
          × (t.name ≡ name)
          × (init_proc_sync_module (some name) ≡ some m)
          × (m.procsync ≡ t.type))
unfolding init_proc_sync_module get_sync_module_index get_sync_type Found Serves module_index_from
init_proc_sync_module_lem name = elim (sync_type_from-Found (negsuc 0) proc_sync_options name) [
  | inl (e, absent) ↦ inl (rw e refl, absent)
  | inr (i, t, g, n, e) ↦
      let (m, c, p) = all_served i t g in
      inr (i, t, m, g, n, ap (λ z. module_at (module_index_from 0 sync_modules z)) e ∙ c, p)
]

-- the searches by name and by type at an option
abbrev Names : SyncType → Type 0
Names t =
    (get_name_from_sync_type proc_sync_options t.type ≡ some t.name)
    × (get_sync_type proc_sync_options (some t.name) ≡ pos t.type)

-- Of each option, the name is found by its type and the type by its name: both are unique.
pub get_sync_type-get_name_from_sync_type :
    (i : ℕ) (t : SyncType)
    → get_elem? proc_sync_options i ≡ some t
    → (get_name_from_sync_type proc_sync_options t.type ≡ some t.name)
      × (get_sync_type proc_sync_options (some t.name) ≡ pos t.type)
unfolding get_name_from_sync_type name_from get_sync_type sync_type_from same
get_sync_type-get_name_from_sync_type zero t h = subst Names (some-injective _ t h) (refl, refl)
get_sync_type-get_name_from_sync_type (suc zero) t h =
    subst Names (some-injective _ t h) (refl, refl)
get_sync_type-get_name_from_sync_type (suc (suc zero)) t h =
    subst Names (some-injective _ t h) (refl, refl)
get_sync_type-get_name_from_sync_type (suc (suc (suc zero))) t h =
    subst Names (some-injective _ t h) (refl, refl)
get_sync_type-get_name_from_sync_type (suc (suc (suc (suc zero)))) t h =
    subst Names (some-injective _ t h) (refl, refl)
get_sync_type-get_name_from_sync_type (suc (suc (suc (suc (suc zero))))) t h =
    subst Names (some-injective _ t h) (refl, refl)
get_sync_type-get_name_from_sync_type (suc (suc (suc (suc (suc (suc i)))))) t h =
    absurd (none-ne-some t h)
