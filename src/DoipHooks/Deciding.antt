-- ===== src/DoipHooks/Deciding.antt =====
-- Which hook decides in virtual_ecu/virtecu/doip_dispatcher.py, and what gets past its isolation.
use doip_playground.Base.{ℕ, ◌≡◌, refl, ◌⊎◌, inl, inr, Option, none, some, List, [], ◌∷◌}
use doip_playground.DoipHooks.{
  isolated, or_further, first_decision, as_resolved, converted, resolve_doip, DoipHook, CallResult,
  returned_value, returned_none, raised_error, was_cancelled, Called, value, nothing, stopped,
  Resolved, decision, undecided, escaped, interrupted,
}

module _ {Q S V : Type 0} (handle : ℕ → Q → S → CallResult V × S) where
  -- A handler that neither decides nor is cancelled: it returns None or raises.
  abbrev pub IsPassedOver : CallResult V × S → S → Type 0
  IsPassedOver (returned_none, t) s = t ≡ s
  IsPassedOver (raised_error, t) s = t ≡ s
  IsPassedOver (returned_value v, t) s = ⊥
  IsPassedOver (was_cancelled, t) s = ⊥

  -- The first handler that is not passed over ends so; the state goes through the calls in order.
  abbrev pub EndsWith : CallResult V → List DoipHook → Q → S → S → Type 0
  EndsWith r [] q s s' = ⊥
  EndsWith r (h ∷ hs) q s s' =
      (handle h.hook_handler q s ≡ (r, s'))
      ⊎ ((t : S) × IsPassedOver (handle h.hook_handler q s) t × EndsWith r hs q t s')

  -- All handlers are passed over.
  abbrev pub AllPassedOver : List DoipHook → Q → S → S → Type 0
  AllPassedOver [] q s s' = s ≡ s'
  AllPassedOver (h ∷ hs) q s s' =
      (t : S) × IsPassedOver (handle h.hook_handler q s) t × AllPassedOver hs q t s'

  -- What the loop's outcome says of the calls.
  abbrev Explains : Called V × S → List DoipHook → Q → S → Type 0
  Explains (value v, s') hs q s = EndsWith (returned_value v) hs q s s'
  Explains (stopped, s') hs q s = EndsWith was_cancelled hs q s s'
  Explains (nothing, s') hs q s = AllPassedOver hs q s s'

  further-Explains :
      (o : Called V × S) (h : DoipHook) (hs : List DoipHook) (q : Q) (s t : S)
      → IsPassedOver (handle h.hook_handler q s) t
      → Explains o hs q t
      → Explains o (h ∷ hs) q s
  further-Explains (value v, s') h hs q s t over x = inr (t, over, x)
  further-Explains (stopped, s') h hs q s t over x = inr (t, over, x)
  further-Explains (nothing, s') h hs q s t over x = (t, over, x)

  first_decision-Explains :
      (hs : List DoipHook) (q : Q) (s : S) → Explains (first_decision handle hs q s) hs q s
  unfolding first_decision
  first_decision-Explains [] q s = refl
  first_decision-Explains (h ∷ hs) q s =
      go (handle h.hook_handler q s) refl (first_decision-Explains hs q)
    where
      go :
          (r : CallResult V × S)
          → handle h.hook_handler q s ≡ r
          → ((t : S) → Explains (first_decision handle hs q t) hs q t)
          → Explains
              (or_further handle (isolated handle r) (first_decision handle hs q))
              (h ∷ hs)
              q
              s
      go (returned_value v, t) e later = inl e
      go (was_cancelled, t) e later = inl e
      go (returned_none, t) e later =
          further-Explains (first_decision handle hs q t) h hs q s t (rw e refl) (later t)
      go (raised_error, t) e later =
          further-Explains (first_decision handle hs q t) h hs q s t (rw e refl) (later t)

  -- What a resolution says of the calls and of the conversion.
  abbrev pub Justified :
      {W : Type 0} → (V → Option W) → Resolved W × S → List DoipHook → Q → S → Type 0
  Justified convert (decision w, s') hs q s =
      (v : V) × EndsWith (returned_value v) hs q s s' × (convert v ≡ some w)
  Justified convert (escaped, s') hs q s =
      (v : V) × EndsWith (returned_value v) hs q s s' × (convert v ≡ none)
  Justified convert (interrupted, s') hs q s = EndsWith was_cancelled hs q s s'
  Justified convert (undecided, s') hs q s = AllPassedOver hs q s s'

  as_resolved-Justified :
      {W : Type 0} (convert : V → Option W) (v : V) (o : Option W)
      → convert v ≡ o
      → (s' : S) (hs : List DoipHook) (q : Q) (s : S) → EndsWith (returned_value v) hs q s s'
      → Justified convert (as_resolved handle o s') hs q s
  as_resolved-Justified convert v none e s' hs q s x = (v, x, e)
  as_resolved-Justified convert v (some w) e s' hs q s x = (v, x, e)

  converted-Justified :
      {W : Type 0} (convert : V → Option W) (o : Called V × S) (hs : List DoipHook) (q : Q) (s : S)
      → Explains o hs q s
      → Justified convert (converted handle convert o) hs q s
  converted-Justified convert (value v, s') hs q s x =
      as_resolved-Justified convert v (convert v) refl s' hs q s x
  converted-Justified convert (stopped, s') hs q s x = x
  converted-Justified convert (nothing, s') hs q s x = x

  -- The first hook, in order, that returns a value decides, and what it decides is that value
  -- converted; hooks before it that return None or raise are passed over, with what they did to the
  -- plugins' state. Where the conversion fails, its error escapes to the caller. A cancellation goes
  -- on, and None is the result exactly where all hooks are passed over.
  pub resolve_doip-Justified :
      {W : Type 0} (convert : V → Option W) (hooks : List DoipHook) (q : Q) (s : S)
      → Justified convert (resolve_doip handle convert hooks q s) hooks q s
  resolve_doip-Justified convert hooks q s =
      converted-Justified convert (first_decision handle hooks q s) hooks q s
        (first_decision-Explains hooks q s)
