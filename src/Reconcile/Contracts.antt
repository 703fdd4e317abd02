-- ===== src/Reconcile/Contracts.antt =====
-- reconciliation/contracts.py: artifacts, previews, the apply policies and the adapter registry.
use anvil_events.Base.{
  ℕ, String, Bool, true, false, ◌&&◌, ◌||◌, Option, none, some, List, [], ◌∷◌, ◌==◌, string_eq,
  contains, if◌then◌else◌,
}
use anvil_events.Result.{Result, ok, err, value_error}
use anvil_events.Reconcile.Desired.{Desired}

-- The data of an artifact is its bytes.
pub record Artifact : Type 0 where
  pub data_bytes : List ℕ
  pub revision : String

pub record Preview : Type 0 where
  pub summary : String
  pub changes : List String

-- (producer, resource, adapter)
pub record Binding : Type 0 where
  pub producer : String
  pub resource : String
  pub adapter : String

-- A class with an `allows` method for each constructor.
pub data Policy : Type 0 where
  deny_by_default : Policy
  allow_resources : List String → Policy
  allow_bindings : List Binding → Policy

unfoldable pub is_binding_of : Desired → Binding → Bool
is_binding_of d b =
    b.producer == d.producer && b.resource == d.payload.resource && b.adapter == d.payload.adapter

unfoldable pub has_binding : Desired → List Binding → Bool
unfolding is_binding_of
has_binding d [] = false
has_binding d (b ∷ bs) = is_binding_of d b || has_binding d bs

-- policy.allows(desired, preview): no policy of the package reads the preview.
unfoldable pub allows : Policy → Desired → Preview → Bool
unfolding has_binding
allows deny_by_default d preview = false
allows (allow_resources resources) d preview = contains d.payload.resource resources
allows (allow_bindings bindings) d preview = has_binding d bindings

-- AllowBindingsPolicy.__init__ over bindings as lists of texts.
unfoldable pub normalize : List (List String) → Result (List Binding)
normalize [] = ok []
normalize ((producer ∷ resource ∷ adapter ∷ []) ∷ bs) =
    let rest = normalize bs in
    if producer == "" || (resource == "" || adapter == "")
    then err (value_error "policy bindings must be (producer, resource, adapter)")
    else elim rest [
      | ok more ↦ ok (record { producer = producer; resource = resource; adapter = adapter } ∷ more)
      | err e ↦ err e
    ]
normalize (_ ∷ bs) = err (value_error "policy bindings must be (producer, resource, adapter)")

-- AdapterRegistry: the names and the adapters registered under them.
abbrev pub Registry {ℓ} : Type ℓ → Type ℓ
Registry A = List (String × A)

unfoldable pub find_adapter {ℓ} : {A : Type ℓ} → String → Registry A → Option A
find_adapter name [] = none
find_adapter name ((n, a) ∷ r) = if n == name then some a else find_adapter name r

abbrev pub has_adapter {ℓ} : {A : Type ℓ} → Option A → Bool
has_adapter none = false
has_adapter (some a) = true

unfoldable pub register {ℓ} : {A : Type ℓ} → String → A → Registry A → Result (Registry A)
unfolding find_adapter
register name adapter r =
    if name == ""
    then err (value_error "adapter requires a non-empty name")
    else if has_adapter (find_adapter name r)
    then err (value_error "adapter is already registered")
    else ok ((name, adapter) ∷ r)

unfoldable pub get_adapter {ℓ} : {A : Type ℓ} → String → Registry A → Result A
unfolding find_adapter
get_adapter name r = elim (find_adapter name r) [
  | none ↦ err (value_error "adapter is not registered")
  | some a ↦ ok a
]
