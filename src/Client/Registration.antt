-- ===== src/Client/Registration.antt =====
-- ncx_client/nclient.cpp: a control channel is found under the nonce that the server gave it.
use ncx_for_mall.Prelude.{
  ℕ, ◌≡◌, ◌≢◌, ◌∙◌, inl, inr, List, Option, none, some, false, if◌then◌else◌, Bool-cases, arith,
}
use ncx_for_mall.Prelude.Maps.{
  lookup, insert, text_eq, lookup-insert, lookup-emplace, lookup-erase, beq_self,
}
use ncx_for_mall.Client.{CControlChannelMap, entry, register_control_channel}

beq_ne : (j k : List ℕ) → j ≢ k → text_eq.beq j k ≡ false
beq_ne j k h = elim (Bool-cases (text_eq.beq j k)) [
  | inl e ↦ absurd (h ((text_eq.beq_iff j k).0 e))
  | inr e ↦ e
]

module _ (old_id new_id : List ℕ) (channel : Option ℕ) (m : CControlChannelMap)
    (found : lookup old_id m ≡ some channel) (unused : lookup new_id m ≡ none)
    (differ : old_id ≢ new_id) where
  moved-entry : entry m old_id ≡ channel
  moved-entry = rw (entry, found)

  new_id-insert : lookup new_id (insert old_id none m) ≡ none
  new_id-insert = lookup-insert old_id new_id none m ∙ rw (beq_ne old_id new_id differ) unused

  -- Where a control channel is found under its old id and its new id is another one and not in use,
  -- the registration moves its entry from the old id to the new one, and the entries of all other
  -- ids are as before.
  pub lookup-register :
      (k : List ℕ)
      → lookup k (register_control_channel old_id new_id m) ≡ (
          if text_eq.beq old_id k
          then none
          else if text_eq.beq new_id k
          then some channel
          else lookup k m)
  unfolding register_control_channel
  lookup-register k =
      lookup-erase old_id k _
      ∙ rw
          (
            lookup-emplace new_id k (entry m old_id) (insert old_id none m) new_id-insert,
            moved-entry,
            lookup-insert old_id k none m,
          )
          (ground arith)

  pub register-found : lookup new_id (register_control_channel old_id new_id m) ≡ some channel
  register-found = lookup-register new_id ∙ rw (beq_ne old_id new_id differ, beq_self new_id)

  pub register-gone : lookup old_id (register_control_channel old_id new_id m) ≡ none
  register-gone = lookup-register old_id ∙ rw (beq_self old_id)
