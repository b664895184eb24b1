-- ===== src/Client/Startup/Registered.antt =====
-- ncx_client/nclient.cpp: every service of the configuration gets its control channel.
use ncx_for_mall.Prelude.{
  ℕ, zero, suc, ap, ◌≡◌, refl, sym, ◌∙◌, subst, List, [], ◌∷◌, ◌++◌, Option, none, some, false,
  length, arith, length-append, append_assoc, append-nil,
}
use ncx_for_mall.Prelude.Maps.{lookup, emplace, text_eq, text_beq, lookup-emplace, beq_self}
use ncx_for_mall.Protocol.{Wire, control_channel_hello, serialize_hello}
use ncx_for_mall.Framing.{header_installer}
use ncx_for_mall.Config.{CControlChannelArgs}
use ncx_for_mall.Client.{
  CControlChannel, CControlChannelMap, connects, waits_hello, do_control_channel_handshake,
}
use ncx_for_mall.Client.Startup.{
  NClient, start_channel, new_control_channel, parse_args, new_nclient, change, make_starts,
  run_client,
}

-- The ids are new, and differ from each other.
abbrev pub Differs : List ℕ → List (List ℕ × CControlChannelArgs) → Type 0
Differs id [] = Unit {0}
Differs id ((other, args) ∷ rest) =
    (text_beq id other ≡ false) × (text_beq other id ≡ false) × Differs id rest

abbrev pub AreNew : List (List ℕ × CControlChannelArgs) → CControlChannelMap → Type 0
AreNew [] m = Unit {0}
AreNew ((id, args) ∷ rest) m = (lookup id m ≡ none) × Differs id rest × AreNew rest m

module _ (w : Wire) where
  -- The hello of a control channel for a service.
  abbrev pub service_hello : CControlChannelArgs → List ℕ
  service_hello args = header_installer w (
      serialize_hello w (record {
        hello_type = some control_channel_hello;
        digest = none;
        content =
            some
              (record { service_name = some args.service_name; proxy_port = some args.proxy_port });
      }))

  -- A channel that has sent its hello, and only that, and waits for the answer.
  pub record Greets (id : List ℕ) (args : CControlChannelArgs) (c : CControlChannel) : Type 0 where
    pub same_id : c.id ≡ id
    pub waits : c.stage ≡ waits_hello
    pub said : c.to_server ≡ service_hello args ∷ []

  start_channel-Greets :
      (id : List ℕ) (args : CControlChannelArgs) → Greets id args (start_channel w id args)
  unfolding start_channel new_control_channel do_control_channel_handshake
  start_channel-Greets id args = record { same_id = refl; waits = refl; said = refl }

-- A channel that has said nothing and has no connection.
pub record Rests (id : List ℕ) (args : CControlChannelArgs) (c : CControlChannel) : Type 0 where
  pub same_id : c.id ≡ id
  pub apart : c.stage ≡ connects
  pub silent : c.to_server ≡ []

new_control_channel-Rests :
    (id : List ℕ) (args : CControlChannelArgs) → Rests id args (new_control_channel id args)
unfolding new_control_channel
new_control_channel-Rests id args = record { same_id = refl; apart = refl; silent = refl }

-- The services in order, each with its channel as it should be, from some number on.
abbrev pub Registered :
    (List ℕ → CControlChannelArgs → CControlChannel → Type 0)
    → List (List ℕ × CControlChannelArgs)
    → ℕ
    → List CControlChannel
    → CControlChannelMap
    → Type 0
Registered P [] k [] m = Unit {0}
Registered P [] k (c ∷ cs) m = ⊥
Registered P ((id, args) ∷ rest) k [] m = ⊥
Registered P ((id, args) ∷ rest) k (c ∷ cs) m =
    P id args c × (lookup id m ≡ some (some k)) × Registered P rest (suc k) cs m

-- The numbers of the channels of a row of services, from some number on.
abbrev pub numbers : List (List ℕ × CControlChannelArgs) → ℕ → List ℕ
numbers [] k = []
numbers (pair ∷ rest) k = k ∷ numbers rest (suc k)

-- The channels of a row of services, each made from its id and its service.
abbrev pub channels_by :
    (List ℕ → CControlChannelArgs → CControlChannel)
    → List (List ℕ × CControlChannelArgs)
    → List CControlChannel
channels_by make [] = []
channels_by make ((id, args) ∷ rest) = make id args ∷ channels_by make rest

-- Each service has its entry.
abbrev HaveEntries : List (List ℕ × CControlChannelArgs) → ℕ → CControlChannelMap → Type 0
HaveEntries [] k m = Unit {0}
HaveEntries ((id, args) ∷ rest) k m = (lookup id m ≡ some (some k)) × HaveEntries rest (suc k) m

HaveEntries-Registered :
    (P : List ℕ → CControlChannelArgs → CControlChannel → Type 0)
    (make : List ℕ → CControlChannelArgs → CControlChannel)
    → ((id : List ℕ) (args : CControlChannelArgs) → P id args (make id args))
    → (pairs : List (List ℕ × CControlChannelArgs)) (k : ℕ) (m : CControlChannelMap)
    → HaveEntries pairs k m
    → Registered P pairs k (channels_by make pairs) m
HaveEntries-Registered P make each [] k m h = tt
HaveEntries-Registered P make each ((id, args) ∷ rest) k m h =
    (each id args, h.0, HaveEntries-Registered P make each rest (suc k) m h.1)

change-append :
    (f : CControlChannel → CControlChannel) (before : List CControlChannel) (c : CControlChannel)
    (behind : List CControlChannel) (k : ℕ)
    → length before ≡ k
    → change f k (before ++ c ∷ behind) ≡ before ++ f c ∷ behind
change-append f [] c behind zero e = refl
change-append f [] c behind (suc k) e = absurd (omega (arith, e))
change-append f (b ∷ before) c behind zero e = absurd (omega (arith, e))
change-append f (b ∷ before) c behind (suc k) e =
    ap (◌∷◌ b) (change-append f before c behind k (omega (arith, e)))

-- The starts of all channels of a row, made in order.
make_starts-all :
    (w : Wire) (pairs : List (List ℕ × CControlChannelArgs)) (before : List CControlChannel) (k : ℕ)
    → length before ≡ k
    → make_starts w (numbers pairs k) (before ++ channels_by new_control_channel pairs)
      ≡ before ++ channels_by (start_channel w) pairs
unfolding make_starts start_channel
make_starts-all w [] before k e = refl
make_starts-all w ((id, args) ∷ rest) before k e =
    let started = start_channel w id args in
    let behind = channels_by new_control_channel rest in
    ap (make_starts w (numbers rest (suc k))) (
      change-append (do_control_channel_handshake w) before (new_control_channel id args) behind k e
      ∙ sym (append_assoc before (started ∷ []) behind))
    ∙ make_starts-all w rest (before ++ started ∷ []) (suc k)
        (omega (arith, length-append before (started ∷ []), e))
    ∙ append_assoc before (started ∷ []) (channels_by (start_channel w) rest)

AreNew-emplace :
    (id : List ℕ) (v : Option ℕ) (pairs : List (List ℕ × CControlChannelArgs))
    (m : CControlChannelMap)
    → lookup id m ≡ none
    → Differs id pairs
    → AreNew pairs m
    → AreNew pairs (emplace id v m)
AreNew-emplace id v [] m e d h = tt
AreNew-emplace id v ((other, args) ∷ rest) m e d h =
    (lookup-emplace id other v m e ∙ rw (d.0, h.0) refl, h.1, AreNew-emplace id v rest m e d.2 h.2)

-- A later channel does not change the entry of an id that it does not have.
parse_args-other :
    (id : List ℕ) (pairs : List (List ℕ × CControlChannelArgs)) (n : NClient)
    → Differs id pairs
    → AreNew pairs n.cc_map
    → lookup id (parse_args pairs n).cc_map ≡ lookup id n.cc_map
unfolding parse_args
parse_args-other id [] n d h = refl
parse_args-other id ((other, args) ∷ rest) n d h =
    parse_args-other id rest _ d.2 (AreNew-emplace other _ rest n.cc_map h.0 h.1 h.2)
    ∙ lookup-emplace other id (some (length n.channels)) n.cc_map h.0
    ∙ rw (d.1) refl

-- What the constructor has made of the services so far.
record Made (pairs : List (List ℕ × CControlChannelArgs)) (n n' : NClient) : Type 0 where
  channels_made : n'.channels ≡ n.channels ++ channels_by new_control_channel pairs
  starts_queued : n'.to_do ≡ n.to_do ++ numbers pairs (length n.channels)
  entries : HaveEntries pairs (length n.channels) n'.cc_map

parse_args-Made :
    (pairs : List (List ℕ × CControlChannelArgs)) (n : NClient)
    → AreNew pairs n.cc_map
    → Made pairs n (parse_args pairs n)
unfolding parse_args
parse_args-Made [] n h = record {
  channels_made = sym (append-nil n.channels);
  starts_queued = sym (append-nil n.to_do);
  entries = tt;
}
parse_args-Made ((id, args) ∷ rest) n h =
    let c = new_control_channel id args in
    let k = length n.channels in
    let m = emplace id (some k) n.cc_map in
    let n' : NClient = record {
      channels = n.channels ++ c ∷ [];
      cc_map = m;
      to_do = n.to_do ++ k ∷ [];
    } in
    let fresh = AreNew-emplace id (some k) rest n.cc_map h.0 h.1 h.2 in
    let made = parse_args-Made rest n' fresh in
    let counted : length (n.channels ++ c ∷ []) ≡ suc k =
      omega (arith, length-append n.channels (c ∷ [])) in
    let found : lookup id m ≡ some (some k) =
      lookup-emplace id id (some k) n.cc_map h.0 ∙ rw (beq_self id) refl in
    record {
      channels_made =
          made.channels_made
          ∙ append_assoc n.channels (c ∷ []) (channels_by new_control_channel rest);
      starts_queued =
          made.starts_queued
          ∙ ap (λ x. (n.to_do ++ k ∷ []) ++ numbers rest x) counted
          ∙ append_assoc n.to_do (k ∷ []) (numbers rest (suc k));
      entries = (
        parse_args-other id rest n' h.1 fresh ∙ found,
        subst (λ x. HaveEntries rest x (parse_args rest n').cc_map) counted made.entries,
      );
    }

-- With ids that differ from each other, a new client has exactly one control channel for each
-- service of its configuration, in their order, each found under its id; none of them has a
-- connection or has sent anything, and their starts are in the loop's queue, in order. Once the
-- loop has made these starts, each channel is still found under its id, has sent the hello with its
-- service's name and port, and only that, and waits for the answer, and the queue is empty.
pub new_nclient-Registered :
    (w : Wire) (cc_set : List (List ℕ × CControlChannelArgs))
    → AreNew cc_set []
    → Registered Rests cc_set 0 (new_nclient cc_set).channels (new_nclient cc_set).cc_map
      × ((new_nclient cc_set).to_do ≡ numbers cc_set 0)
      × Registered
          (Greets w)
          cc_set
          0
          (run_client w (new_nclient cc_set)).channels
          (run_client w (new_nclient cc_set)).cc_map
      × ((run_client w (new_nclient cc_set)).to_do ≡ [])
unfolding run_client
new_nclient-Registered w cc_set h =
    let made = parse_args-Made cc_set (record { channels = []; cc_map = []; to_do = [] }) h in
    let n = new_nclient cc_set in
    let started : make_starts w n.to_do n.channels ≡ channels_by (start_channel w) cc_set =
      ap (λ l. make_starts w l n.channels) made.starts_queued
      ∙ ap (make_starts w (numbers cc_set 0)) made.channels_made
      ∙ make_starts-all w cc_set [] 0 refl in
    (
      subst (λ l. Registered Rests cc_set 0 l n.cc_map) (sym made.channels_made)
          (HaveEntries-Registered Rests new_control_channel new_control_channel-Rests cc_set 0
            n.cc_map made.entries),
      made.starts_queued,
      subst (λ l. Registered (Greets w) cc_set 0 l n.cc_map) (sym started)
          (HaveEntries-Registered (Greets w) (start_channel w) (start_channel-Greets w) cc_set 0
            n.cc_map made.entries),
      refl,
    )
