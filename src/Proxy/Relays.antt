-- ===== src/Proxy/Relays.antt =====
-- What holds of a call in every state, and that the steps of its goroutines keep it.
use agg_certificate_proxy.Prelude.{
  ℕ, ◌+◌, ◌≡◌, ◌≢◌, refl, sym, ap, ◌∙◌, subst, ◌⊎◌, inl, inr, Bool, true, List, [], ◌∷◌, ◌++◌,
  Option, none, some, Bytes, arith,
}
use agg_certificate_proxy.Proxy.{
  StreamError, eof, Frame, Point, receiving, sending, reported, taken, Forwarder, report, recv_msg,
  send_msg, Answer, succeeded, backend_error, forwarding_failed, Call,
}

-- At the end of a goroutine all that it received was sent, or all but the last frame, which its
-- stream refused.
abbrev pub EndsWith : (StreamError → Type 0) → StreamError → List Bytes → List Bytes → Type 0
EndsWith R e received sent = (received ≡ sent) ⊎ ((p : Bytes) × (received ≡ sent ++ p ∷ []) × R e)

-- In between, what it received and did not send is the frame in its hands.
abbrev pub Relays : (StreamError → Type 0) → Point → Frame → List Bytes → List Bytes → Type 0
Relays R receiving f received sent = received ≡ sent
Relays R sending f received sent = received ≡ sent ++ f.payload ∷ []
Relays R (reported e) f received sent = EndsWith R e received sent
Relays R (taken e) f received sent = EndsWith R e received sent

abbrev pub IsRelay : (StreamError → Type 0) → Forwarder → Type 0
IsRelay R f = Relays R f.point f.frame f.received f.sent

-- How many rounds of the select a goroutine has caused.
abbrev pub weight : Point → ℕ
weight (taken e) = 1
weight _ = 0

-- What an answer says of the goroutines, by their points.
abbrev pub Answers : Option Answer → Point → Point → Bool → Type 0
Answers none p q trailer = weight q ≡ 0
Answers (some succeeded) p q trailer = (q ≡ taken eof) × (trailer ≡ true)
Answers (some (backend_error e)) p q trailer = (q ≡ taken e) × (e ≢ eof) × (trailer ≡ true)
Answers (some (forwarding_failed e)) p q trailer = (p ≡ taken e) × (e ≢ eof)

pub Answers-backend :
    (a : Option Answer) (p p' q : Point) (t : Bool)
    → weight p ≡ 0
    → Answers a p q t
    → Answers a p' q t
Answers-backend none p p' q t z h = h
Answers-backend (some succeeded) p p' q t z h = h
Answers-backend (some (backend_error e)) p p' q t z h = h
Answers-backend (some (forwarding_failed e)) p p' q t z h =
    absurd (subst (λ x. weight x ≡ 0 → ⊥) (sym h.0) (λ y. omega arith) z)

Answers-caller :
    (a : Option Answer) (p q q' : Point) (t : Bool)
    → weight q ≡ 0
    → weight q' ≡ 0
    → Answers a p q t
    → Answers a p q' t
Answers-caller none p q q' t z z' h = z'
Answers-caller (some succeeded) p q q' t z z' h =
    absurd (subst (λ x. weight x ≡ 0 → ⊥) (sym h.0) (λ y. omega arith) z)
Answers-caller (some (backend_error e)) p q q' t z z' h =
    absurd (subst (λ x. weight x ≡ 0 → ⊥) (sym h.0) (λ y. omega arith) z)
Answers-caller (some (forwarding_failed e)) p q q' t z z' h = h

module _ (R : StreamError → Type 0) where
  pub record IsCall (c : Call) : Type 0 where
    pub to_backend_relays : IsRelay (λ e. Unit) c.to_backend
    pub to_caller_relays : IsRelay R c.to_caller
    pub counted : c.rounds ≡ weight c.to_backend.point + weight c.to_caller.point
    pub answered : Answers c.answer c.to_backend.point c.to_caller.point c.trailer_set

  pub at_point :
      (S : StreamError → Type 0) (f : Forwarder) (p : Point)
      → f.point ≡ p
      → IsRelay S f
      → Relays S p f.frame f.received f.sent
  at_point S f p e h = subst (λ q. Relays S q f.frame f.received f.sent) e h

  pub recv_msg-IsRelay :
      (S : StreamError → Type 0) (bytes : Bytes) (f : Forwarder)
      → f.point ≡ receiving
      → IsRelay S f
      → IsRelay S (recv_msg bytes f)
  unfolding recv_msg
  recv_msg-IsRelay S bytes f e h = ap (λ s. s ++ bytes ∷ []) (at_point S f receiving e h)

  pub send_msg-IsRelay :
      (S : StreamError → Type 0) (f : Forwarder)
      → f.point ≡ sending
      → IsRelay S f
      → IsRelay S (send_msg f)
  unfolding send_msg
  send_msg-IsRelay S f e h = at_point S f sending e h

  pub recv_msg-weight : (bytes : Bytes) (f : Forwarder) → weight (recv_msg bytes f).point ≡ 0
  unfolding recv_msg
  recv_msg-weight bytes f = refl

  pub send_msg-weight : (f : Forwarder) → weight (send_msg f).point ≡ 0
  unfolding send_msg
  send_msg-weight f = refl

  pub recv_error-IsRelay :
      (S : StreamError → Type 0) (e : StreamError) (f : Forwarder)
      → f.point ≡ receiving
      → IsRelay S f
      → IsRelay S (report e f)
  recv_error-IsRelay S e f at h = inl (at_point S f receiving at h)

  pub send_error-IsRelay :
      (S : StreamError → Type 0) (e : StreamError) (f : Forwarder)
      → S e
      → f.point ≡ sending
      → IsRelay S f
      → IsRelay S (report e f)
  send_error-IsRelay S e f s at h = inr (f.frame.payload, at_point S f sending at h, s)

  pub weight_at : (f : Forwarder) (p : Point) → f.point ≡ p → weight p ≡ 0 → weight f.point ≡ 0
  weight_at f p e z = rw e z

  -- A step of a goroutine that is neither before it nor after it at the end.
  pub backend_step :
      (c : Call) (f : Forwarder)
      → IsCall c
      → weight c.to_backend.point ≡ 0
      → weight f.point ≡ 0
      → IsRelay (λ e. Unit) f
      → IsCall (record c { to_backend = f })
  backend_step c f h z z' r = record {
    to_backend_relays = r;
    to_caller_relays = h.to_caller_relays;
    counted = h.counted ∙ (omega (arith, z, z'));
    answered =
        Answers-backend c.answer c.to_backend.point f.point c.to_caller.point c.trailer_set z
          h.answered;
  }

  pub caller_step :
      (c : Call) (f : Forwarder)
      → IsCall c
      → weight c.to_caller.point ≡ 0
      → weight f.point ≡ 0
      → IsRelay R f
      → IsCall (record c { to_caller = f })
  caller_step c f h z z' r = record {
    to_backend_relays = h.to_backend_relays;
    to_caller_relays = r;
    counted = h.counted ∙ (omega (arith, z, z'));
    answered =
        Answers-caller c.answer c.to_backend.point c.to_caller.point f.point c.trailer_set z z'
          h.answered;
  }
