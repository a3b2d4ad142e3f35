-- ===== src/Gateway/Supervisor/StopRequest.antt =====
-- How long a stop request of gateway/cell_supervisor.hpp stays up.
use robonode.Prelude.{◌≡◌, refl, ◌≢◌, true, false, List, [], ◌∷◌, arith, All}
use robonode.Core.Result.{success}
use robonode.Gateway.Supervisor.{
  moving, CellSupervisor, begin, stop, Call, begins, ends, faults, stops, estops, resumes, apply,
  apply_all,
}

-- The calls that leave a stop request up.
abbrev pub KeepsRequest : Call → Type 0
KeepsRequest (ends next) = ⊥
KeepsRequest resumes = ⊥
KeepsRequest _ = Unit

apply-cancel :
    (c : Call) (s : CellSupervisor) → KeepsRequest c → s.cancel ≡ true → (apply c s).cancel ≡ true
unfolding apply
apply-cancel (begins next) s k h = ground arith
apply-cancel (ends next) s k h = absurd k
apply-cancel (faults why) s k h = ground arith
apply-cancel stops s k h = refl
apply-cancel estops s k h = refl
apply-cancel resumes s k h = absurd k

apply-unlatched :
    (c : Call) (s : CellSupervisor) → c ≢ estops → s.latched ≡ false → (apply c s).latched ≡ false
unfolding apply
apply-unlatched (begins next) s n h = ground arith
apply-unlatched (ends next) s n h = ground arith
apply-unlatched (faults why) s n h = ground arith
apply-unlatched stops s n h = h
apply-unlatched estops s n h = absurd (n refl)
apply-unlatched resumes s n h = ground arith

apply_all-cancel :
    (cs : List Call) (s : CellSupervisor)
    → All KeepsRequest cs
    → s.cancel ≡ true
    → (apply_all cs s).cancel ≡ true
unfolding apply_all
apply_all-cancel [] s k h = h
apply_all-cancel (c ∷ cs) s (k, ks) h = apply_all-cancel cs _ ks (apply-cancel c s k h)

apply_all-unlatched :
    (cs : List Call) (s : CellSupervisor)
    → All (λ c. c ≢ estops) cs
    → s.latched ≡ false
    → (apply_all cs s).latched ≡ false
unfolding apply_all
apply_all-unlatched [] s n h = h
apply_all-unlatched (c ∷ cs) s (n, ns) h = apply_all-unlatched cs _ ns (apply-unlatched c s n h)

admits :
    (s : CellSupervisor)
    → s.latched ≡ false
    → s.cancel ≡ true
    → ((begin moving s).1 ≡ success) × ((begin moving s).0.cancel ≡ true)
unfolding begin
admits s h k = ground arith

-- A stop request stays up until `end` or `resume`: `begin` does not clear it. So after a stop of a
-- cell that is not latched, and any calls but those two and an e-stop, the next motion is admitted
-- with the request still up.
pub stop-begin :
    (cs : List Call) (s : CellSupervisor)
    → All KeepsRequest cs
    → All (λ c. c ≢ estops) cs
    → s.latched ≡ false
    → let (s', st) = begin moving (apply_all cs (stop s).0) in (st ≡ success) × (s'.cancel ≡ true)
unfolding stop
stop-begin cs s k n h =
    admits _ (apply_all-unlatched cs (record s { cancel = true }) n h)
      (apply_all-cancel cs (record s { cancel = true }) k refl)
