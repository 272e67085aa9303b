-- ===== src/Gateway/EcuLink/Queue.antt =====
-- What receivers of an ECU's connection in doip_edgenode/ecu_client.py see behind its end.
use doip_playground.Base.{
  ◌==◌, if◌then◌else◌, Bool-cases, length, replicate, Bytes, ℕ, zero, suc, ◌+◌, ◌≡◌, refl, sym, ap,
  ◌∙◌, inl, inr, true, false, List, [], ◌∷◌, ◌++◌, map, append_assoc, append-nil, arith,
}
use doip_playground.Doip.{pt_header_nack, pt_alive_check_request}
use doip_playground.Gateway.{word_at}
use doip_playground.Gateway.EcuLink.{
  mark_terminal, background_frame, background_frames, recv_items, recv_frame, recv_times, EcuLeg,
  Item, queued_frame, end_marker, raises, gives,
}

-- The frames that are for receivers, in order.
unfoldable pub relevant : List Bytes → List Bytes
relevant [] = []
relevant (raw ∷ raws) =
    let rest = relevant raws in
    if word_at 2 raw == pt_header_nack
    then rest
    else if word_at 2 raw == pt_alive_check_request
    then rest
    else raw ∷ rest

abbrev pub open_leg : List Item → EcuLeg
open_leg items = record { leg_connected = true; terminated = false; recv_queue = items }

abbrev pub ended_leg : List Item → EcuLeg
ended_leg items = record { leg_connected = false; terminated = true; recv_queue = items }

background_frames-queue :
    (raws : List Bytes) (items : List Item)
    → background_frames raws (open_leg items) ≡ open_leg (items ++ map queued_frame (relevant raws))
unfolding background_frames relevant background_frame
background_frames-queue [] items = ap open_leg (sym (append-nil items))
background_frames-queue (raw ∷ raws) items = elim (Bool-cases (word_at 2 raw == pt_header_nack)) [
  | inl nack ↦ rw nack (background_frames-queue raws items)
  | inr other ↦ elim (Bool-cases (word_at 2 raw == pt_alive_check_request)) [
    | inl alive ↦ rw (other, alive) (background_frames-queue raws items)
    | inr queued ↦
        rw (other, queued)
          (background_frames-queue raws (items ++ queued_frame raw ∷ [])
            ∙ ap open_leg
                (append_assoc items (queued_frame raw ∷ []) (map queued_frame (relevant raws))))
  ]
]

recv_times-raises : (n : ℕ) → recv_times n (ended_leg (end_marker ∷ [])) ≡ replicate n raises
unfolding recv_times recv_frame recv_items
recv_times-raises zero = refl
recv_times-raises (suc n) = ap (◌∷◌ raises) (recv_times-raises n)

zero_sum : (n k : ℕ) → k ≡ 0 + n → k ≡ n
zero_sum n k e = omega arith

recv_times-drains :
    (frames : List Bytes) (n k : ℕ)
    → k ≡ length frames + n
    → recv_times k (ended_leg (map queued_frame frames ++ end_marker ∷ []))
      ≡ map gives frames ++ replicate n raises
unfolding recv_times recv_frame recv_items
recv_times-drains [] n k e = rw (zero_sum n k e) (recv_times-raises n)
recv_times-drains (f ∷ frames) n zero e = absurd (omega arith)
recv_times-drains (f ∷ frames) n (suc k) e =
    ap (◌∷◌ (gives f)) (recv_times-drains frames n k (omega arith))

-- The background reader has read some frames, and the connection ends, also by an error. Then every
-- receiver comes to an end: the frames that are neither Header NACKs nor Alive Check Requests are
-- received in order, each once, and every call behind them raises, however many there are.
pub recv_times-ended :
    (raws : List Bytes) (n : ℕ)
    → recv_times
        (length (relevant raws) + n)
        (mark_terminal false (background_frames raws (open_leg [])))
      ≡ map gives (relevant raws) ++ replicate n raises
recv_times-ended raws n =
    rw (background_frames-queue raws []) (
      unfold mark_terminal in recv_times-drains (relevant raws) n (length (relevant raws) + n) refl)

-- A connection that is closed gives no frame any more.
pub recv_times-closed :
    (leg : EcuLeg) (n : ℕ) → recv_times n (mark_terminal true leg) ≡ replicate n raises
unfolding mark_terminal
recv_times-closed leg n = elim (Bool-cases leg.terminated) [
  | inl ended ↦ rw ended (recv_times-raises n)
  | inr live ↦ rw live (recv_times-raises n)
]
