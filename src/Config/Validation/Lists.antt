-- ===== src/Config/Validation/Lists.antt =====
-- Lists of issues that are empty, and the checks of single services that then found nothing.
use large_model_proxy.Base.{ℕ, suc, ◌≡◌, refl, Bool, true, false, List, [], ◌∷◌, ◌++◌, arith, All}
use large_model_proxy.Config.{ServiceConfig}
use large_model_proxy.Config.Validation.{Issue, issue_if, each_service}

pub append-nil_inv : {A : Type 0} (xs ys : List A) → xs ++ ys ≡ [] → (xs ≡ []) × (ys ≡ [])
append-nil_inv [] ys h = (refl, h)
append-nil_inv (x ∷ xs) ys h = ground (arith, h)

pub issue_if-nil : (b : Bool) (i : Issue) → issue_if b i ≡ [] → b ≡ false
issue_if-nil true i h = ground (arith, h)
issue_if-nil false i h = refl

-- A check that found nothing at any index says so of every service.
pub each_service-nil :
    (check : ℕ → ServiceConfig → List Issue) (P : ServiceConfig → Type 0)
    → ((i : ℕ) (s : ServiceConfig) → check i s ≡ [] → P s)
    → (i : ℕ) (ss : List ServiceConfig) → each_service check i ss ≡ []
    → All P ss
each_service-nil check P f i [] h = tt
each_service-nil check P f i (s ∷ ss) h =
    let (here, there) = append-nil_inv (check i s) (each_service check (suc i) ss) h in
    (f i s here, each_service-nil check P f (suc i) ss there)
