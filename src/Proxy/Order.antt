-- ===== src/Proxy/Order.antt =====
-- What is forwarded is what was received, in every state that a call can reach.
use agg_certificate_proxy.Prelude.{◌≡◌, refl, arith}
use agg_certificate_proxy.Proxy.{
  StreamError, eof, status, receiving, sending, reported, taken, Call, on_to_backend, on_to_caller,
  Step, backend_recv, backend_recv_error, backend_send, backend_send_error, caller_recv,
  caller_recv_error, caller_send, caller_send_error, select_to_backend, select_to_caller, Reach,
  begun, next,
}
use agg_certificate_proxy.Proxy.Relays.{
  Answers-backend, IsCall, at_point, recv_msg-IsRelay, send_msg-IsRelay, recv_msg-weight,
  send_msg-weight, recv_error-IsRelay, send_error-IsRelay, weight_at, backend_step, caller_step,
}

module _ (R : StreamError → Type 0) where
  select_to_backend-IsCall :
      (c : Call) (e : StreamError)
      → c.to_backend.point ≡ reported e
      → IsCall R c
      → IsCall R (on_to_backend e c)
  unfolding on_to_backend
  select_to_backend-IsCall c eof at h = record {
    to_backend_relays = at_point R (λ e. Unit) c.to_backend (reported eof) at h.to_backend_relays;
    to_caller_relays = h.to_caller_relays;
    counted = omega (arith, h.counted, weight_at R c.to_backend (reported eof) at refl);
    answered =
        Answers-backend c.answer c.to_backend.point (taken eof) c.to_caller.point c.trailer_set
          (weight_at R c.to_backend (reported eof) at refl) h.answered;
  }
  select_to_backend-IsCall c (status n) at h = record {
    to_backend_relays =
        at_point R (λ e. Unit) c.to_backend (reported (status n)) at h.to_backend_relays;
    to_caller_relays = h.to_caller_relays;
    counted = omega (arith, h.counted, weight_at R c.to_backend (reported (status n)) at refl);
    answered = (refl, λ e. absurd (cc));
  }

  select_to_caller-IsCall :
      (c : Call) (e : StreamError)
      → c.to_caller.point ≡ reported e
      → IsCall R c
      → IsCall R (on_to_caller e c)
  unfolding on_to_caller
  select_to_caller-IsCall c eof at h = record {
    to_backend_relays = h.to_backend_relays;
    to_caller_relays = at_point R R c.to_caller (reported eof) at h.to_caller_relays;
    counted = omega (arith, h.counted, weight_at R c.to_caller (reported eof) at refl);
    answered = (refl, refl);
  }
  select_to_caller-IsCall c (status n) at h = record {
    to_backend_relays = h.to_backend_relays;
    to_caller_relays = at_point R R c.to_caller (reported (status n)) at h.to_caller_relays;
    counted = omega (arith, h.counted, weight_at R c.to_caller (reported (status n)) at refl);
    answered = (refl, (λ e. absurd (cc)), refl);
  }

  Step-IsCall : {c d : Call} → Step R c d → IsCall R c → IsCall R d
  Step-IsCall (backend_recv c bytes at) h =
      backend_step R c _ h (weight_at R c.to_backend receiving at refl)
        (recv_msg-weight R bytes c.to_backend)
        (recv_msg-IsRelay R (λ e. Unit) bytes c.to_backend at h.to_backend_relays)
  Step-IsCall (backend_recv_error c e at) h =
      backend_step R c _ h (weight_at R c.to_backend receiving at refl) refl
        (recv_error-IsRelay R (λ e. Unit) e c.to_backend at h.to_backend_relays)
  Step-IsCall (backend_send c at) h =
      backend_step R c _ h (weight_at R c.to_backend sending at refl)
        (send_msg-weight R c.to_backend)
        (send_msg-IsRelay R (λ e. Unit) c.to_backend at h.to_backend_relays)
  Step-IsCall (backend_send_error c e at) h =
      backend_step R c _ h (weight_at R c.to_backend sending at refl) refl
        (send_error-IsRelay R (λ e. Unit) e c.to_backend tt at h.to_backend_relays)
  Step-IsCall (caller_recv c bytes at) h =
      caller_step R c _ h (weight_at R c.to_caller receiving at refl)
        (recv_msg-weight R bytes c.to_caller)
        (recv_msg-IsRelay R R bytes c.to_caller at h.to_caller_relays)
  Step-IsCall (caller_recv_error c e at) h =
      caller_step R c _ h (weight_at R c.to_caller receiving at refl) refl
        (recv_error-IsRelay R R e c.to_caller at h.to_caller_relays)
  Step-IsCall (caller_send c at) h =
      caller_step R c _ h (weight_at R c.to_caller sending at refl) (send_msg-weight R c.to_caller)
        (send_msg-IsRelay R R c.to_caller at h.to_caller_relays)
  Step-IsCall (caller_send_error c e at r) h =
      caller_step R c _ h (weight_at R c.to_caller sending at refl) refl
        (send_error-IsRelay R R e c.to_caller r at h.to_caller_relays)
  Step-IsCall (select_to_backend c e unanswered at) h = select_to_backend-IsCall c e at h
  Step-IsCall (select_to_caller c e unanswered at) h = select_to_caller-IsCall c e at h

  pub Reach-IsCall : {c : Call} → Reach R c → IsCall R c
  Reach-IsCall begun = record {
    to_backend_relays = refl;
    to_caller_relays = refl;
    counted = refl;
    answered = refl;
  }
  Reach-IsCall (next r s) = Step-IsCall s (Reach-IsCall r)
