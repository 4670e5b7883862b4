-- ===== src/Examples/Calls.antt =====
-- A call through the proxy: one frame each way, and both ends close.
use agg_certificate_proxy.Prelude.{◌≤◌, ◌≡◌, ◌≢◌, refl, [], ◌∷◌, none}
use agg_certificate_proxy.Proxy.{
  StreamError, eof, Call, new_call, recv_msg, send_msg, report, on_to_backend, on_to_caller, Step,
  backend_recv, backend_recv_error, backend_send, Reach, begun, next,
}
use agg_certificate_proxy.Proxy.Ending.{select_ends}

-- SendMsg of a server stream returns a status.
abbrev CanRefuse : StreamError → Type 0
CanRefuse e = e ≢ eof

-- A call in which the request went out and the caller has closed.
abbrev asked : Call
asked = record new_call {
  to_backend = report eof (send_msg (recv_msg (1 ∷ 2 ∷ []) new_call.to_backend));
}

asked-Reach : Reach CanRefuse asked
unfolding recv_msg send_msg
asked-Reach =
    next (next (next begun (backend_recv new_call (1 ∷ 2 ∷ []) refl)) (backend_send _ refl))
      (backend_recv_error _ eof refl)

-- The answer came back, and the backend has ended.
abbrev answered : Call
answered = on_to_caller eof (record (on_to_backend eof asked) {
  to_caller = report eof (send_msg (recv_msg (3 ∷ []) new_call.to_caller));
})

select_ends_example :
    (asked.rounds ≤ 2)
    × (asked.answer ≡ none → (asked.rounds ≤ 1) × ((d : Call) × Step CanRefuse asked d))
select_ends_example = select_ends CanRefuse asked asked-Reach
