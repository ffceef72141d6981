-- ===== src/Capability/Access/Account.antt =====
-- src/erp_ai/capabilities/access.py: more rights never expose fewer tools.
use ai_systems_try.Base.{
  String, ◌≡◌, refl, sym, ◌∙◌, Bool, true, ◌&&◌, List, [], ◌∷◌, arith, is_subset, contains, any,
  ◌==◌, string_eq,
}
use ai_systems_try.Context.{TrustedRequestContext, is_some}
use ai_systems_try.Capability.{ToolDescriptor, CapabilityManifest}
use ai_systems_try.Capability.Registry.{CapabilityRegistry}
use ai_systems_try.Capability.Access.{evaluate_capability_access}
use ai_systems_try.Capability.Access.Laws.{
  permits, offers, authorized_names, authorized_names-evaluate,
}

-- Context `wide` has every right of `narrow`, for the same purpose.
pub record IsWider (narrow wide : TrustedRequestContext) : Type 0 where
  pub employee : is_some narrow.employee_id ≡ true → is_some wide.employee_id ≡ true
  pub modules :
      (m : String)
      → contains narrow.enabled_modules m ≡ true
      → contains wide.enabled_modules m ≡ true
  pub permissions :
      (p : String)
      → contains narrow.permission_codes p ≡ true
      → contains wide.permission_codes p ≡ true
  pub roles : (r : String) → contains narrow.roles r ≡ true → contains wide.roles r ≡ true
  pub purpose : narrow.purpose ≡ wide.purpose

is_subset_mono :
    (xs ys zs : List String)
    → ((x : String) → contains ys x ≡ true → contains zs x ≡ true)
    → is_subset xs ys ≡ true
    → is_subset xs zs ≡ true
is_subset_mono [] ys zs f h = refl
is_subset_mono (x ∷ xs) ys zs f h = ground (arith, f x, is_subset_mono xs ys zs f)

any-contains :
    (p : String → Bool) (xs : List String) (x : String)
    → contains xs x ≡ true
    → p x ≡ true
    → any p xs ≡ true
any-contains p [] x h k = cc
any-contains p (y ∷ ys) x h k = ground (arith, any-contains p ys x)

any_mono :
    (p : String → Bool) (xs ys : List String)
    → ((x : String) → contains xs x ≡ true → contains ys x ≡ true)
    → any p xs ≡ true
    → any p ys ≡ true
any_mono p [] ys f h = cc
any_mono p (x ∷ xs) ys f h =
    ground (arith, f x, any-contains p ys x, any_mono p xs ys (λ z k. f z (ground arith)))

any_imp {ℓ} :
    {A : Type ℓ} (p q : A → Bool) (xs : List A)
    → ((x : A) → p x ≡ true → q x ≡ true)
    → any p xs ≡ true
    → any q xs ≡ true
any_imp p q [] f h = cc
any_imp p q (x ∷ xs) f h = ground (arith, f x, any_imp p q xs f)

module _ (narrow wide : TrustedRequestContext) (w : IsWider narrow wide) (read_only : Bool) where
  permits_mono :
      (tool : ToolDescriptor)
      → permits narrow read_only tool ≡ true
      → permits wide read_only tool ≡ true
  permits_mono tool h = ground (
    arith,
    w.employee,
    w.purpose,
    is_subset_mono tool.required_permissions_all narrow.permission_codes wide.permission_codes
        w.permissions,
    any_mono (contains tool.required_roles_any) narrow.roles wide.roles w.roles,
  )

  offers_mono :
      (name : String) (manifest : CapabilityManifest)
      → offers narrow read_only name manifest ≡ true
      → offers wide read_only name manifest ≡ true
  offers_mono name manifest h = ground (
    arith,
    is_subset_mono manifest.required_modules narrow.enabled_modules wide.enabled_modules w.modules,
    any_imp (λ tool. name == tool.tool_name && permits narrow read_only tool)
        (λ tool. name == tool.tool_name && permits wide read_only tool) manifest.tools
        (λ tool k. ground (arith, permits_mono tool)),
  )

-- A context with more rights, for the same purpose, is exposed every tool name that one with fewer
-- rights is.
pub authorized_names_mono :
    (registry : CapabilityRegistry) (narrow wide : TrustedRequestContext) (read_only : Bool)
    (name : String)
    → IsWider narrow wide
    → contains
        (authorized_names (evaluate_capability_access registry narrow read_only).model_capabilities)
        name
      ≡ true
    → contains
        (authorized_names (evaluate_capability_access registry wide read_only).model_capabilities)
        name
      ≡ true
authorized_names_mono registry narrow wide read_only name w h =
    authorized_names-evaluate registry wide read_only name
    ∙ any_imp (offers narrow read_only name) (offers wide read_only name) registry.manifests
        (offers_mono narrow wide w read_only name)
        (sym (authorized_names-evaluate registry narrow read_only name) ∙ h)
