-- ===== src/DirectService/Retire/Touched.antt =====
-- The segments of `_execute_retire` touch, of the ledger, its own record only.
use acp_proxy.Prelude.{String, none, some}
use acp_proxy.DirectState.{completed, retired, DirectSession}
use acp_proxy.NativeTypes.{NativeBinding}
use acp_proxy.DirectService.State.{Generation, on_session}
use acp_proxy.DirectService.Settle.{deactivate}
use acp_proxy.DirectService.Retire.{retired_result, end_retire, finish_retire}
use acp_proxy.DirectService.Touches.{Touches, Touches-session, Touches-settled}

module _ (id sid : String) (g h : Generation) (t : Touches id g h) where
  pub end_retire-Touches : (b : NativeBinding) → Touches id g (end_retire id sid b h)
  unfolding end_retire
  end_retire-Touches b =
      let close = λ (d : DirectSession). record d { state = retired } in
      Touches-settled id completed (some (retired_result sid b)) none g (on_session sid close h)
        (Touches-session id sid close g h t)

  pub finish_retire-Touches : Touches id g (finish_retire id sid h)
  unfolding finish_retire
  finish_retire-Touches = Touches-session id sid (deactivate id) g h t
