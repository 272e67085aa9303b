-- ===== src/Gateway/Activation/Turns.antt =====
-- What one session's turn in doip_edgenode/session.py leaves alone of the others, and where it waits
-- next.
use doip_playground.Base.{
  ◌==◌, ==_iff, Bool-cases, lookup, lookup-insert, lookup-erase, Bytes, ℕ, ◌≡◌, refl, sym, ap, ◌∙◌,
  ◌≢◌, ◌⊎◌, inl, inr, true, false, none, some, arith,
}
use doip_playground.Gateway.{GatewayConfig}
use doip_playground.Gateway.Activation.{
  goto, schedule_cleanup, send_raw, leave_lock, commit, DoipSession, Edge, Place, absent, reading,
  gone, queued, probing, waiting_capacity, reclaiming, deciding,
}
use doip_playground.Gateway.Activation.Registered.{
  schedule_cleanup-other, schedule_cleanup_self, schedule_cleanup-still, cleanup_keeps_none,
  commit-other, commit-still,
}

-- An activated session asks for its own address only.
abbrev pub Named : Edge → ℕ → ℕ → Type 0
Named e i src = (e.sessions i).activated ≡ true → (e.sessions i).tester_logical_addr ≡ some src

abbrev pub Held : Edge → ℕ → ℕ → Type 0
Held e i src = lookup src e.holders ≡ some i

-- Nobody is registered for the address, and the session is not activated.
abbrev pub Vacant : Edge → ℕ → ℕ → Type 0
Vacant e i src = (lookup src e.registered ≡ none) × ((e.sessions i).activated ≡ false)

-- What holds of a session where it waits.
abbrev pub PlaceOk : Edge → ℕ → Place → Type 0
PlaceOk e i absent = (e.sessions i).activated ≡ false
PlaceOk e i reading = Unit {0}
PlaceOk e i gone = Unit {0}
PlaceOk e i (queued src) = Named e i src
PlaceOk e i (probing src j) = Named e i src × Held e i src
PlaceOk e i (waiting_capacity src) = Held e i src × Vacant e i src
PlaceOk e i (reclaiming src owners) = Held e i src × Vacant e i src
PlaceOk e i (deciding src) = Held e i src × Vacant e i src

abbrev NobodyElse : Edge → ℕ → ℕ → Type 0
NobodyElse e i src = (k : ℕ) → k ≢ i → lookup src e.holders ≡ some k → ⊥

-- What a turn of session `i` keeps for the others.
pub record Tame (i : ℕ) (e e' : Edge) : Type 0 where
  pub who :
      (k : ℕ)
      → k ≢ i
      → ((e'.sessions k).activated ≡ (e.sessions k).activated)
        × ((e'.sessions k).tester_logical_addr ≡ (e.sessions k).tester_logical_addr)
  pub kept : (s k : ℕ) → k ≢ i → lookup s e.holders ≡ some k → lookup s e'.holders ≡ some k
  pub vacant :
      (s : ℕ) → lookup s e.registered ≡ none → (lookup s e'.registered ≡ none) ⊎ NobodyElse e i s
  pub stay : (k : ℕ) → k ≢ i → e'.places k ≡ e.places k

pub Tame-trans : (i : ℕ) (e e' e'' : Edge) → Tame i e e' → Tame i e' e'' → Tame i e e''
Tame-trans i e e' e'' a b = record {
  who = λ k ne. ((b.who k ne).0 ∙ (a.who k ne).0, (b.who k ne).1 ∙ (a.who k ne).1);
  kept = λ s k ne h. b.kept s k ne (a.kept s k ne h);
  vacant = λ s free. elim (a.vacant s free) [
    | inr alone ↦ inr alone
    | inl still ↦ elim (b.vacant s still) [
      | inl free' ↦ inl free'
      | inr alone ↦ inr (λ k ne h. alone k ne (a.kept s k ne h))
    ]
  ];
  stay = λ k ne. b.stay k ne ∙ a.stay k ne;
}

Held-Vacant :
    (i k src : ℕ) (e e' : Edge)
    → Tame i e e'
    → k ≢ i
    → Held e k src
    → lookup src e.registered ≡ none
    → (e.sessions k).activated ≡ false
    → Held e' k src × Vacant e' k src
Held-Vacant i k src e e' t ne held free idle = (
  t.kept src k ne held,
  (
    elim (t.vacant src free) [ inl still ↦ still | inr alone ↦ absurd (alone k ne held) ],
    (t.who k ne).0 ∙ idle,
  ),
)

-- A place stays as good through a turn of another session.
pub PlaceOk-Tame :
    (i k : ℕ) (e e' : Edge) (p : Place) → Tame i e e' → k ≢ i → PlaceOk e k p → PlaceOk e' k p
PlaceOk-Tame i k e e' absent t ne ok = (t.who k ne).0 ∙ ok
PlaceOk-Tame i k e e' reading t ne ok = tt
PlaceOk-Tame i k e e' gone t ne ok = tt
PlaceOk-Tame i k e e' (queued src) t ne ok =
    λ active. (t.who k ne).1 ∙ ok (sym (t.who k ne).0 ∙ active)
PlaceOk-Tame i k e e' (probing src j) t ne (named, held) =
    (λ active. (t.who k ne).1 ∙ named (sym (t.who k ne).0 ∙ active), t.kept src k ne held)
PlaceOk-Tame i k e e' (waiting_capacity src) t ne (held, (free, idle)) =
    Held-Vacant i k src e e' t ne held free idle
PlaceOk-Tame i k e e' (reclaiming src owners) t ne (held, (free, idle)) =
    Held-Vacant i k src e e' t ne held free idle
PlaceOk-Tame i k e e' (deciding src) t ne (held, (free, idle)) =
    Held-Vacant i k src e e' t ne held free idle

-- The turns' parts.
pub send_raw-Tame : (i k : ℕ) (raw : Bytes) (e : Edge) → Tame i e (send_raw k raw e)
unfolding send_raw
send_raw-Tame i k raw e = record {
  who = λ j ne. ground arith;
  kept = λ s j ne h. ground arith;
  vacant = λ s free. inl (ground arith);
  stay = λ j ne. ground arith;
}

pub cleanup-Tame : (i j : ℕ) (e : Edge) → Tame i e (schedule_cleanup j e)
cleanup-Tame i j e = record {
  who = λ k ne. elim (Bool-cases (k == j)) [
    | inl same ↦
        rw ((==_iff k j).0 same) ((schedule_cleanup_self j e).1, (schedule_cleanup_self j e).2)
    | inr other ↦
        let unmoved = schedule_cleanup-other j k e (ground arith) in
        (
          ap (λ (s : DoipSession). s.activated) unmoved,
          ap (λ (s : DoipSession). s.tester_logical_addr) unmoved,
        )
  ];
  kept = λ s k ne h. rw (schedule_cleanup-still j e).1 h;
  vacant = λ s free. inl (cleanup_keeps_none j s e free);
  stay = λ k ne. ap (λ (f : ℕ → Place). f k) (schedule_cleanup-still j e).0;
}

pub goto-Tame : (i : ℕ) (p : Place) (e : Edge) → Tame i e (goto i p e)
goto-Tame i p e = record {
  who = λ k ne. (refl, refl);
  kept = λ s k ne h. h;
  vacant = λ s free. inl free;
  stay = λ k ne. ground arith;
}

pub leave_lock-Tame : (i src : ℕ) (e : Edge) → Held e i src → Tame i e (leave_lock src e)
leave_lock-Tame i src e held = record {
  who = λ k ne. (refl, refl);
  kept = λ s k ne h. ground (arith, lookup-erase src s e.holders);
  vacant = λ s free. inl free;
  stay = λ k ne. refl;
}

module _ (config : GatewayConfig) where
  pub commit-Tame : (i src : ℕ) (e : Edge) → Held e i src → Tame i e (commit config i src e)
  commit-Tame i src e held = record {
    who = λ k ne.
        let unmoved = commit-other config i src k e ne in
        (
          ap (λ (s : DoipSession). s.activated) unmoved,
          ap (λ (s : DoipSession). s.tester_logical_addr) unmoved,
        );
    kept = λ s k ne h. rw (commit-still config i src e).2 h;
    vacant = λ s free. elim (Bool-cases (src == s)) [
      | inl same ↦ inr (λ k ne h. ground arith)
      | inr other ↦
          inl (
            rw (commit-still config i src e).0 (ground (arith, lookup-insert src s i e.registered)))
    ];
    stay = λ k ne. ap (λ (f : ℕ → Place). f k) (commit-still config i src e).1;
  }
