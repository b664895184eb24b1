-- ===== src/Channel/Registration.antt =====
-- network/channel.cpp and network/epoll.cpp: what the kernel is told of a channel.
use Prim.Native.Nat.{bit_or}
use ncx_for_mall.Prelude.{ℕ, zero, suc, ◌<◌, ◌≡◌, refl, true, false, List, [], ◌∷◌, arith}
use ncx_for_mall.Channel.{
  Channel, Ctl, ctl_add, ctl_mod, ctl_del, Request, enable_read, enable_write, disable_write,
  disable_all, set_et, remove, listen, ask, ask_all, new_channel, to_short, epoll_et,
}

-- The bit of `EPOLLET` is cut off, checked for each value.
set_et_lost : (x : ℕ) → x < 8 → to_short (bit_or x epoll_et) ≡ x
set_et_lost zero h = refl
set_et_lost (suc zero) h = refl
set_et_lost (suc (suc zero)) h = refl
set_et_lost (suc (suc (suc zero))) h = refl
set_et_lost (suc (suc (suc (suc zero)))) h = refl
set_et_lost (suc (suc (suc (suc (suc zero))))) h = refl
set_et_lost (suc (suc (suc (suc (suc (suc zero)))))) h = refl
set_et_lost (suc (suc (suc (suc (suc (suc (suc zero))))))) h = refl
set_et_lost (suc (suc (suc (suc (suc (suc (suc (suc n)))))))) h = absurd (omega arith)

-- On a channel that listens to no events but input, priority input and output, `set_et` changes
-- nothing: its bit does not fit the `short` that holds the events.
pub listen-set_et : (c : Channel) → c.listen_events < 8 → listen c set_et ≡ c
unfolding listen
listen-set_et c h = rw (set_et_lost c.listen_events h)

abbrev pub Keeps : Request → Type 0
Keeps remove = ⊥
Keeps _ = Unit {0}

abbrev pub AllKeep : List Request → Type 0
AllKeep [] = Unit {0}
AllKeep (r ∷ rs) = Keeps r × AllKeep rs

-- One call that adds the descriptor, and after it only calls that modify it (the last call first).
abbrev pub AddThenMods : ℕ → List Ctl → Type 0
AddThenMods fd [] = ⊥
AddThenMods fd (ctl_add f e ∷ []) = f ≡ fd
AddThenMods fd (ctl_add f e ∷ c ∷ calls) = ⊥
AddThenMods fd (ctl_mod f e ∷ calls) = (f ≡ fd) × AddThenMods fd calls
AddThenMods fd (ctl_del f ∷ calls) = ⊥

-- The events in the last call.
abbrev pub told : List Ctl → ℕ → ℕ
told (ctl_add f e ∷ calls) d = e
told (ctl_mod f e ∷ calls) d = e
told _ d = d

pub record InTouch (c : Channel) (calls : List Ctl) : Type 0 where
  pub epolled : c.is_epolled ≡ true
  pub calls_fit : AddThenMods c.fd calls
  pub current : told calls 0 ≡ c.listen_events

ask-first :
    (c : Channel) (r : Request)
    → Keeps r
    → c.is_epolled ≡ false
    → InTouch (ask c r []).0 (ask c r []).1
unfolding ask
ask-first c enable_read k h = ground arith
ask-first c enable_write k h = ground arith
ask-first c disable_write k h = ground arith
ask-first c disable_all k h = ground arith
ask-first c set_et k h = ground arith
ask-first c remove k h = absurd k

ask-InTouch :
    (c : Channel) (calls : List Ctl) (r : Request)
    → Keeps r
    → InTouch c calls
    → InTouch (ask c r calls).0 (ask c r calls).1
unfolding ask
ask-InTouch c calls enable_read k t = ground arith
ask-InTouch c calls enable_write k t = ground arith
ask-InTouch c calls disable_write k t = ground arith
ask-InTouch c calls disable_all k t = ground arith
ask-InTouch c calls set_et k t = ground arith
ask-InTouch c calls remove k t = absurd k

ask_all-InTouch :
    (rs : List Request) (c : Channel) (calls : List Ctl)
    → AllKeep rs
    → InTouch c calls
    → InTouch (ask_all c rs calls).0 (ask_all c rs calls).1
unfolding ask_all
ask_all-InTouch [] c calls k t = t
ask_all-InTouch (r ∷ rs) c calls k t =
    ask_all-InTouch rs (ask c r calls).0 (ask c r calls).1 k.1 (ask-InTouch c calls r k.0 t)

-- Whatever is asked of a new channel, short of its removal, the kernel is told to add the
-- descriptor once and first, then only to modify it, and the last call has the current events.
pub ask_all-new_channel :
    (fd : ℕ) (r : Request) (rs : List Request)
    → AllKeep (r ∷ rs)
    → let (c, calls) = ask_all (new_channel fd) (r ∷ rs) [] in InTouch c calls
unfolding ask_all new_channel
ask_all-new_channel fd r rs k = ask_all-InTouch rs _ _ k.1 (ask-first (new_channel fd) r k.0 refl)

-- A registered channel that is removed is not added again: the next request, unless it is another
-- removal, only modifies a descriptor that the kernel was told to delete.
pub ask-removed :
    (c : Channel) (calls : List Ctl) (r : Request)
    → c.is_epolled ≡ true
    → Keeps r
    → (ask_all c (remove ∷ r ∷ []) calls).1
      ≡ ctl_mod c.fd (listen c r).listen_events ∷ ctl_del c.fd ∷ calls
unfolding ask_all ask listen
ask-removed c calls enable_read h k = ground arith
ask-removed c calls enable_write h k = ground arith
ask-removed c calls disable_write h k = ground arith
ask-removed c calls disable_all h k = ground arith
ask-removed c calls set_et h k = ground arith
ask-removed c calls remove h k = absurd k
