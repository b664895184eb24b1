-- ===== src/Channel/Running.antt =====
-- network/channel.cpp: which callbacks an event of a channel runs.
use Prim.Native.Nat.{bit_and}
use ncx_for_mall.Prelude.{
  ◌≡◌, refl, sym, ◌∙◌, ap, ap₂, inl, inr, List, [], ◌∷◌, ◌++◌, Bool, true, false, Bool-cases, ◌==◌,
  if◌then◌else◌,
}
use ncx_for_mall.Channel.{
  Channel, Callback, reads, writes, Callbacks, epoll_in, epoll_out, handle_event,
  handle_event_guard,
}

-- The callbacks that are there, of those that an event asks for.
abbrev pub is_given : Callbacks → Callback → Bool
is_given given reads = given.read_callback
is_given given writes = given.write_callback

abbrev pub only_given : Callbacks → List Callback → List Callback
only_given given [] = []
only_given given (k ∷ ks) =
    if is_given given k then k ∷ only_given given ks else only_given given ks

only_given-append :
    (given : Callbacks) (xs ys : List Callback)
    → only_given given (xs ++ ys) ≡ only_given given xs ++ only_given given ys
only_given-append given [] ys = refl
only_given-append given (k ∷ ks) ys = elim (Bool-cases (is_given given k)) [
  | inl e ↦ rw e (ap (λ l. k ∷ l) (only_given-append given ks ys))
  | inr e ↦ rw e (only_given-append given ks ys)
]

only_given-test :
    (given : Callbacks) (k : Callback) (none_asked : Bool)
    → (if none_asked then [] else if is_given given k then k ∷ [] else [])
      ≡ only_given given (if none_asked then [] else k ∷ [])
only_given-test given k true = refl
only_given-test given k false = refl

-- An event runs the callbacks that it asks for and that have been given, the read callback first.
pub handle_event_guard-only_given :
    (given : Callbacks) (c : Channel)
    → handle_event_guard given c ≡ only_given given (handle_event c)
unfolding handle_event_guard handle_event
handle_event_guard-only_given given c =
    ap₂ (λ xs ys. xs ++ ys) (only_given-test given reads (bit_and c.ready_events epoll_in == 0))
      (only_given-test given writes (bit_and c.ready_events epoll_out == 0))
    ∙ sym (
        only_given-append given (if bit_and c.ready_events epoll_in == 0 then [] else reads ∷ [])
          (if bit_and c.ready_events epoll_out == 0 then [] else writes ∷ []))
