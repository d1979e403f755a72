-- ===== src/Effects/Settled.antt =====
-- RetryOnConflict with a body that answers anything but a conflict: the body runs once.
use sbombastic.Common.{ℕ, zero, suc, ◌≡◌, refl, ap, ◌∙◌, true, false, Error, Result, ok, err, panic}
use sbombastic.Effects.{Run, Eff, attempts, again, Retry}

-- Not a conflict, so that RetryOnConflict returns it.
abbrev pub IsSettled : {A : Type 0} → Result A → Type 0
IsSettled (err Error.conflict) = true ≡ false
IsSettled _ = Unit

again_settled :
    {W E A : Type 0} (next : Eff W E A) (r : Result A) (s : Run W E)
    → IsSettled r
    → again next (r, s) ≡ (r, s)
again_settled next (ok a) s h = refl
again_settled next panic s h = refl
again_settled next (err Error.conflict) s h = cc
again_settled next (err Error.not_found) s h = refl
again_settled next (err Error.already_exists) s h = refl
again_settled next (err Error.bad_request) s h = refl
again_settled next (err Error.not_container_image) s h = refl
again_settled next (err Error.no_platform) s h = refl
again_settled next (err Error.other) s h = refl

attempts_settled :
    {W E A : Type 0} (n : ℕ) (body : Eff W E A) (s s' : Run W E) (r : Result A)
    → body s ≡ (r, s')
    → IsSettled r
    → attempts n body s ≡ (r, s')
unfolding attempts
attempts_settled zero body s s' r e h = e
attempts_settled (suc n) body s s' r e h =
    ap (again (attempts n body)) e ∙ again_settled (attempts n body) r s' h

pub retry_settled :
    {W E A : Type 0} (retry : Retry W E A) (body : Eff W E A) (s s' : Run W E) (r : Result A)
    → body s ≡ (r, s')
    → IsSettled r
    → retry.retry body s ≡ (r, s')
retry_settled retry body s s' r e h =
    let (n, same) = retry.retried body s in same ∙ attempts_settled n body s s' r e h
