-- ===== src/Base/Branches.antt =====
-- A property of a value that the code computes by cases holds if it holds in each case.
use mathlib.Core.Path.{◌≡◌, refl}
use mathlib.Core.Bool.{Bool, true, false}
use mathlib.Core.Option.{Option, none, some}
use virtio_device_poc.Base.Tests.{if◌then◌else◌}
use virtio_device_poc.Base.Results.{Result, ok, err}

pub by_bool {ℓ m} :
    {B : Type ℓ} (P : B → Type m) (b : Bool) (x y : B)
    → (b ≡ true → P x)
    → (b ≡ false → P y)
    → P (if b then x else y)
by_bool P true x y p q = p refl
by_bool P false x y p q = q refl

pub by_option {ℓ m} :
    {A : Type ℓ} {B : Type ℓ} (P : B → Type m) (o : Option A) (n : B) (f : A → B)
    → (o ≡ none → P n)
    → ((a : A) → o ≡ some a → P (f a))
    → P (elim o [ none ↦ n | some a ↦ f a ])
by_option P none n f p q = p refl
by_option P (some a) n f p q = q a refl

pub by_result {ℓ m} :
    {A E : Type ℓ} {B : Type ℓ} (P : B → Type m) (r : Result A E) (f : A → B) (g : E → B)
    → ((a : A) → r ≡ ok a → P (f a))
    → ((e : E) → r ≡ err e → P (g e))
    → P (elim r [ ok a ↦ f a | err e ↦ g e ])
by_result P (ok a) f g p q = p a refl
by_result P (err e) f g p q = q e refl
