-- ===== src/EventLoop/Order.antt =====
-- network/EventLoop.cpp: every task that another thread gives to the loop is called once, in order.
use ncx_for_mall.Prelude.{
  ℕ, ◌≡◌, refl, sym, ap, ◌∙◌, Bool, true, false, List, [], ◌∷◌, ◌++◌, ◌==◌, if◌then◌else◌, arith,
  append_assoc, append-nil, length, replicate, subst, Bool-cases, inl, inr,
}
use ncx_for_mall.EventLoop.{
  EventLoop, Phase, polling, handled, draining, Step, runs_on_owner, stops, returns, swaps, next,
  step, steps, head_of_loop, poll_returns, swap_funcs, next_func, run_on_owner_thread, add_to_do,
}

module _ {T : Type 0} where
  -- The tasks that a row of steps puts on the list: those given by a thread other than the owner.
  abbrev pub posted : ℕ → List (Step T) → List T
  posted tid [] = []
  posted tid (runs_on_owner current cb ∷ ss) =
      if tid == current then posted tid ss else cb ∷ posted tid ss
  posted tid (_ ∷ ss) = posted tid ss

  -- All the tasks that were put on the list: those called, those in hand, and those waiting. A loop
  -- that is not draining has none in hand.
  abbrev pub history : EventLoop T → List T
  history l = l.drained ++ (l.funcs ++ l.to_do_list)

  abbrev pub InHand : Phase → List T → Type 0
  InHand draining funcs = Unit {0}
  InHand _ funcs = funcs ≡ []

  pub record IsTidy (l : EventLoop T) : Type 0 where
    pub in_hand : InHand l.phase l.funcs

  head_of_loop-InHand :
      (stop : Bool) (funcs : List T) → funcs ≡ [] → InHand (head_of_loop stop) funcs
  head_of_loop-InHand true funcs h = h
  head_of_loop-InHand false funcs h = h

  -- What one step does to the history.
  record Grows (l : EventLoop T) (s : Step T) (l' : EventLoop T) : Type 0 where
    tidy : IsTidy l'
    same_tid : l'.tid ≡ l.tid
    grown : history l' ≡ history l ++ posted l.tid (s ∷ [])

  poll_returns-Grows :
      (l : EventLoop T) (p : Phase) (active : Bool)
      → IsTidy l
      → InHand p l.funcs
      → Grows l (returns active) (poll_returns l p active)
  unfolding poll_returns
  poll_returns-Grows l polling true t h = record {
    tidy = record { in_hand = h };
    same_tid = refl;
    grown = sym (append-nil _);
  }
  poll_returns-Grows l polling false t h = record {
    tidy = record { in_hand = head_of_loop-InHand l.stop l.funcs h };
    same_tid = refl;
    grown = sym (append-nil _);
  }
  poll_returns-Grows l _ active t h = record {
    tidy = t;
    same_tid = refl;
    grown = sym (append-nil _);
  }

  swap_funcs-Grows :
      (l : EventLoop T) (p : Phase) → IsTidy l → InHand p l.funcs → Grows l swaps (swap_funcs l p)
  unfolding swap_funcs
  swap_funcs-Grows l handled t h = record {
    tidy = record { in_hand = tt };
    same_tid = refl;
    grown = rw (h, append-nil, append-nil);
  }
  swap_funcs-Grows l _ t h = record { tidy = t; same_tid = refl; grown = sym (append-nil _) }

  next_func-Grows :
      (l : EventLoop T) (p : Phase) (funcs : List T)
      → l.funcs ≡ funcs
      → IsTidy l
      → l.phase ≡ p
      → Grows l next (next_func l p funcs)
  unfolding next_func
  next_func-Grows l draining [] e t h = record {
    tidy = record { in_hand = head_of_loop-InHand l.stop l.funcs e };
    same_tid = refl;
    grown = sym (append-nil _);
  }
  next_func-Grows l draining (func ∷ rest) e t h = record {
    tidy = record { in_hand = subst (λ p. InHand p rest) (sym h) tt };
    same_tid = refl;
    grown = rw (e, append_assoc, append-nil) refl;
  }
  next_func-Grows l _ funcs e t h = record { tidy = t; same_tid = refl; grown = sym (append-nil _) }

  run-Grows :
      (l : EventLoop T) (current : ℕ) (cb : T)
      → IsTidy l
      → Grows l (runs_on_owner current cb) (run_on_owner_thread l current cb)
  unfolding run_on_owner_thread add_to_do
  run-Grows l current cb t = elim (Bool-cases (l.tid == current)) [
    | inl own ↦ rw own record {
      tidy = record { in_hand = t.in_hand };
      same_tid = refl;
      grown = rw own (sym (append-nil _));
    }
    | inr other ↦ rw other record {
      tidy = record { in_hand = t.in_hand };
      same_tid = refl;
      grown = rw other (simp append_assoc);
    }
  ]

  step-Grows : (l : EventLoop T) (s : Step T) → IsTidy l → Grows l s (step l s)
  unfolding step
  step-Grows l (runs_on_owner current cb) t = run-Grows l current cb t
  step-Grows l stops t = record {
    tidy = record { in_hand = t.in_hand };
    same_tid = refl;
    grown = sym (append-nil _);
  }
  step-Grows l (returns active) t = poll_returns-Grows l l.phase active t t.in_hand
  step-Grows l swaps t = swap_funcs-Grows l l.phase t t.in_hand
  step-Grows l next t = next_func-Grows l l.phase l.funcs refl t refl

  posted-append :
      (tid : ℕ) (ss ts : List (Step T)) → posted tid (ss ++ ts) ≡ posted tid ss ++ posted tid ts
  posted-append tid [] ts = refl
  posted-append tid (runs_on_owner current cb ∷ ss) ts = ground (arith, posted-append tid ss ts)
  posted-append tid (stops ∷ ss) ts = posted-append tid ss ts
  posted-append tid (returns active ∷ ss) ts = posted-append tid ss ts
  posted-append tid (swaps ∷ ss) ts = posted-append tid ss ts
  posted-append tid (next ∷ ss) ts = posted-append tid ss ts

  -- However the steps of the loop and of the other threads interleave, from a loop with no tasks in
  -- hand unless it drains, the tasks called, in hand and waiting are, in this order, those there
  -- were before and then those given by other threads: none is lost, called twice or called out of
  -- turn.
  pub steps-history :
      (ss : List (Step T)) (l : EventLoop T)
      → IsTidy l
      → history (steps l ss) ≡ history l ++ posted l.tid ss
  unfolding steps
  steps-history [] l t = sym (append-nil _)
  steps-history (s ∷ ss) l t =
      let g = step-Grows l s t in
      steps-history ss (step l s) g.tidy
      ∙ rw (g.grown, g.same_tid, append_assoc)
          (ap (◌++◌ (history l)) (sym (posted-append l.tid (s ∷ []) ss)))

  drain :
      (funcs : List T) (l : EventLoop T)
      → l.phase ≡ draining
      → l.funcs ≡ funcs
      → (steps l (replicate (length funcs) next)).drained ≡ l.drained ++ funcs
  unfolding steps step next_func
  drain [] l p e = sym (append-nil _)
  drain (func ∷ rest) l p e =
      rw (p, e, next_func)
        (drain rest (record l { phase = draining; funcs = rest; drained = l.drained ++ func ∷ [] })
            refl refl
          ∙ append_assoc l.drained (func ∷ []) rest)

  -- When `poll` returns with an active channel, one pass through `do_after_handle_events` calls all
  -- the tasks that wait, in order: it takes one round for each.
  pub wake_up-drained :
      (l : EventLoop T)
      → l.phase ≡ polling
      → (steps l (returns true ∷ swaps ∷ replicate (length l.to_do_list) next)).drained
        ≡ l.drained ++ l.to_do_list
  unfolding steps step poll_returns swap_funcs
  wake_up-drained l p =
      rw (p, poll_returns)
        (drain l.to_do_list (record l { phase = draining; to_do_list = []; funcs = l.to_do_list })
          refl refl)
