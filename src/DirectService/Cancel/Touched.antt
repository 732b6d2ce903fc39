-- ===== src/DirectService/Cancel/Touched.antt =====
-- The segments of `_execute_cancel` touch, of the ledger, its own record only.
use acp_proxy.Prelude.{String, true, Option, none, some}
use acp_proxy.DirectState.{completed, OperationRecord}
use acp_proxy.Prelude.Dict.{lookup}
use acp_proxy.DirectService.State.{Generation}
use acp_proxy.DirectService.Cancel.{end_cancel_of, end_cancel, cancel_result, state_value}
use acp_proxy.DirectService.Touches.{Touches, Touches-refl, Touches-settled}

end_cancel_of-Touches :
    (o : Option OperationRecord) (id : String) (g : Generation)
    → Touches id g (end_cancel_of o id g)
unfolding end_cancel_of
end_cancel_of-Touches none id g = Touches-refl id g
end_cancel_of-Touches (some r) id g =
    Touches-settled id completed (some (cancel_result (state_value r.state) true)) none g g
      (Touches-refl id g)

pub end_cancel-Touches :
    (id target : String) (g : Generation) → Touches id g (end_cancel id target g)
unfolding end_cancel
end_cancel-Touches id target g = end_cancel_of-Touches (lookup target g.ledger.records) id g
