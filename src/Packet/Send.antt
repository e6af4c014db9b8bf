-- ===== src/Packet/Send.antt =====
-- The send queue: packets leave it in their order, and none is lost or sent twice.
use kcptun_libev.Base.{
  Option, some, ℕ, zero, suc, ◌+◌, ◌≤◌, ◌≡◌, ◌⊎◌, inl, inr, Bool, true, false, List, [], ◌∷◌, ◌++◌,
  length, take, drop, arith, refl, min, ap, length-take, ◌==◌, Bool-cases, subst, if◌then◌else◌,
  sym, ◌∙◌, append_assoc, append-nil, length-append,
}
use kcptun_libev.Library.{is_transient_error}
use kcptun_libev.Server.{Frame}
use kcptun_libev.Packet.{
  total_bytes, mmsg_batch_size, Outgoing, BatchOut, sent, batch_error, send_batches, pkt_send,
  pkt_send_drop,
}

-- Of the packets in the queue, the first were sent, in order, the next were dropped, and the last
-- are still there; `n` of them have left it.
pub record Split (q : Outgoing) (n : ℕ) (q' : Outgoing) : Type 0 where
  pub gone : List Frame
  pub lost : List Frame
  pub wire_eq : q'.wire ≡ q.wire ++ gone
  pub dropped_eq : q'.dropped ≡ q.dropped ++ lost
  pub queue_eq : q.mq_send ≡ gone ++ (lost ++ q'.mq_send)
  pub count_eq : n ≡ length gone + length lost
  pub cap_eq : q'.mq_send_cap ≡ q.mq_send_cap
  pub drained : (lost ≡ []) ⊎ (q'.mq_send ≡ [])

take-drop : (n : ℕ) (xs : List Frame) → take n xs ++ drop n xs ≡ xs
take-drop zero xs = refl
take-drop (suc n) [] = refl
take-drop (suc n) (x ∷ xs) = ground (arith, take-drop n xs)

Split-self :
    (q q' : Outgoing)
    → q'.wire ≡ q.wire
    → q'.dropped ≡ q.dropped
    → q'.mq_send ≡ q.mq_send
    → q'.mq_send_cap ≡ q.mq_send_cap
    → Split q 0 q'
Split-self q q' w d m c = record {
  gone = [];
  lost = [];
  wire_eq = w ∙ sym (append-nil q.wire);
  dropped_eq = d ∙ sym (append-nil q.dropped);
  queue_eq = sym m;
  count_eq = refl;
  cap_eq = c;
  drained = inl refl;
}

append-empty : (xs ys : List Frame) → [] ≡ xs ++ ys → (xs ≡ []) × (ys ≡ [])
append-empty [] ys e = (refl, sym e)
append-empty (x ∷ xs) ys e = ground arith

pub Split-trans :
    {q q' q'' : Outgoing} {m n : ℕ} → Split q m q' → Split q' n q'' → Split q (m + n) q''
Split-trans {q} {q'} {q''} {m} {n} s t = elim s.drained [
  | inl e ↦ record {
    gone = s.gone ++ t.gone;
    lost = t.lost;
    wire_eq = ground (arith, s.wire_eq, t.wire_eq, append_assoc q.wire s.gone t.gone);
    dropped_eq = ground (arith, s.dropped_eq, t.dropped_eq, append-nil q.dropped);
    queue_eq =
        ground (arith, s.queue_eq, t.queue_eq, append_assoc s.gone t.gone (t.lost ++ q''.mq_send));
    count_eq = omega (arith, s.count_eq, t.count_eq, length-append s.gone t.gone, ap length e);
    cap_eq = t.cap_eq ∙ s.cap_eq;
    drained = t.drained;
  }
  | inr e ↦
      let (g, r) = append-empty t.gone (t.lost ++ q''.mq_send) (sym e ∙ t.queue_eq) in
      let (l, r') = append-empty t.lost q''.mq_send (sym r) in
      record {
        gone = s.gone;
        lost = s.lost;
        wire_eq = ground (arith, s.wire_eq, t.wire_eq, append-nil q'.wire);
        dropped_eq = ground (arith, s.dropped_eq, t.dropped_eq, append-nil q'.dropped);
        queue_eq = ground (arith, s.queue_eq);
        count_eq = omega (arith, s.count_eq, t.count_eq, ap length g, ap length l);
        cap_eq = t.cap_eq ∙ s.cap_eq;
        drained = inr r';
      }
]

-- A step that sends the first `n` packets.
Split-sent :
    (q q' : Outgoing) (n : ℕ)
    → n ≤ length q.mq_send
    → q'.wire ≡ q.wire ++ take n q.mq_send
    → q'.dropped ≡ q.dropped
    → q'.mq_send ≡ drop n q.mq_send
    → q'.mq_send_cap ≡ q.mq_send_cap
    → Split q n q'
Split-sent q q' n l w d m c = record {
  gone = take n q.mq_send;
  lost = [];
  wire_eq = w;
  dropped_eq = d ∙ sym (append-nil q.dropped);
  queue_eq = ground (arith, take-drop n q.mq_send);
  count_eq = omega (arith, length-take n q.mq_send);
  cap_eq = c;
  drained = inl refl;
}

Split-dropped :
    (q q' : Outgoing)
    → q'.wire ≡ q.wire
    → q'.dropped ≡ q.dropped ++ q.mq_send
    → q'.mq_send ≡ []
    → q'.mq_send_cap ≡ q.mq_send_cap
    → Split q (length q.mq_send) q'
Split-dropped q q' w d m c = record {
  gone = [];
  lost = q.mq_send;
  wire_eq = w ∙ sym (append-nil q.wire);
  dropped_eq = d;
  queue_eq = ground (arith, append-nil q.mq_send);
  count_eq = omega arith;
  cap_eq = c;
  drained = inr m;
}

-- A function that counts on from `nsend` has split the queue.
pub record Sends (q : Outgoing) (nsend : ℕ) (r : ℕ × Outgoing) : Type 0 where
  pub number : ℕ
  pub result : r.0 ≡ nsend + number
  pub split : Split q number r.1

send_error-Sends :
    (b : Bool) (q : Outgoing) (more : List BatchOut) (nsend : ℕ)
    → let q' = record q { batches = more } in
      Sends q nsend (if b then (nsend, q') else pkt_send_drop nsend q')
unfolding pkt_send_drop
send_error-Sends true q more nsend = record {
  number = 0;
  result = omega arith;
  split = Split-self q _ refl refl refl refl;
}
send_error-Sends false q more nsend = record {
  number = length q.mq_send;
  result = refl;
  split = Split-dropped q _ refl refl refl refl;
}

-- The end of a step that sent `n` packets and left `q'`.
step-Sends :
    (stop last : Bool) (q q' : Outgoing) (n nsend : ℕ) (rest : ℕ × Outgoing)
    → Split q n q'
    → (stop ≡ true → n ≡ 0)
    → Sends q' (nsend + n) rest
    → Sends q nsend (if stop then (nsend, q') else if last then (nsend + n, q') else rest)
step-Sends true last q q' n nsend rest s z r = record {
  number = n;
  result = omega (arith, z refl);
  split = s;
}
step-Sends false true q q' n nsend rest s z r = record { number = n; result = refl; split = s }
step-Sends false false q q' n nsend rest s z r = record {
  number = n + r.number;
  result = omega (arith, r.result);
  split = Split-trans s r.split;
}

send_batches-Sends :
    (batches : List BatchOut) (nsend : ℕ) (q : Outgoing)
    → Sends q nsend (send_batches batches nsend q)
unfolding send_batches
send_batches-Sends [] nsend q = record {
  number = 0;
  result = omega arith;
  split = Split-self q _ refl refl refl refl;
}
send_batches-Sends (batch_error e ∷ more) nsend q =
    send_error-Sends (is_transient_error e) q more nsend
send_batches-Sends (sent m ∷ more) nsend q =
    let n = min m (min (length q.mq_send) mmsg_batch_size) in
    let q' : Outgoing = record q {
      batches = more;
      wire = q.wire ++ take n q.mq_send;
      mq_send = drop n q.mq_send;
      pkt_tx = q.pkt_tx + total_bytes (take n q.mq_send);
    } in
    step-Sends (n == 0) (length q'.mq_send == 0) q q' n nsend (send_batches more (nsend + n) q')
      (Split-sent q q' n (omega arith) refl refl refl refl) (λ e. ground arith)
      (send_batches-Sends more (nsend + n) q')

Split-stamped :
    {q q' : Outgoing} {n : ℕ} (t : Option ℕ)
    → Split q n q'
    → Split q n (record q' { last_send_time = t })
Split-stamped t s = record {
  gone = s.gone;
  lost = s.lost;
  wire_eq = s.wire_eq;
  dropped_eq = s.dropped_eq;
  queue_eq = s.queue_eq;
  count_eq = s.count_eq;
  cap_eq = s.cap_eq;
  drained = s.drained;
}

-- However the socket answers, a call of `pkt_send` takes packets out of the front of the queue only:
-- those that are sent are sent in order and once, those that are dropped come after them, and the
-- result is their number.
pub pkt_send-Split : (q : Outgoing) → Split q (pkt_send q).0 (pkt_send q).1
unfolding pkt_send
pkt_send-Split q = elim (Bool-cases (length q.mq_send == 0)) [
  | inl e ↦ rw e (Split-self q q refl refl refl refl)
  | inr e ↦
      let r = send_batches-Sends q.batches 0 q in
      let number : r.number ≡ (send_batches q.batches 0 q).0 = omega (arith, r.result) in
      rw e (
        Split-stamped (some q.now)
          (subst (λ n. Split q n (send_batches q.batches 0 q).1) number r.split))
]
