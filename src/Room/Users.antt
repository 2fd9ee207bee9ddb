-- ===== src/Room/Users.antt =====
-- server/src/room.rs: `user_channels`, the map from a user to the set of the user's channels, as
-- `open_channel` and `close_channel` change it.
use multiplayer_kit.Base.{
  ℕ, ◌+◌, ◌≡◌, ◌≢◌, refl, ite, Option, none, some, List, [], ◌∷◌, length, All, true, false, ◌&&◌,
  if◌then◌else◌, arith, ℕ_discrete, is_some, Option-cases, inl, inr,
}
use multiplayer_kit.Base.Map.{
  Map, get, insert, remove, contains_key, Distinct, remove_missing, insert-Distinct,
  length-insert_new, length-insert_old,
}
use multiplayer_kit.Base.Set.{
  member, set_insert, set_remove, is_empty, member-set_insert, member-set_remove,
  set_remove_missing, member_empty, set_insert_not_empty, set_remove-set_insert,
}

abbrev pub UserChannels : Type 0 → Type 0
UserChannels K = Map K (List ℕ)

abbrev pub or_default : Option (List ℕ) → List ℕ
or_default none = []
or_default (some s) = s

module _ {K : Type 0} where
  -- The loop of `close_channel`: take the channel out of each set, and stop at a set that this
  -- empties.
  unfoldable pub untrack : ℕ → UserChannels K → UserChannels K × Option K
  untrack c [] = ([], none)
  untrack c ((u, s) ∷ m) =
      let s' = set_remove c s in
      let later = untrack c m in
      if member c s && is_empty s' then ((u, s') ∷ m, some u) else ((u, s') ∷ later.0, later.1)

  -- The user whose set holds the channel.
  unfoldable pub owner : ℕ → UserChannels K → Option K
  owner c [] = none
  owner c ((u, s) ∷ m) = if member c s then some u else owner c m

  -- No two users hold the channel.
  unfoldable pub Once : ℕ → UserChannels K → Type 0
  Once c [] = Unit
  Once c ((u, s) ∷ m) = (member c s ≡ true → owner c m ≡ none) × Once c m

  abbrev pub NonEmpty : K × List ℕ → Type 0
  NonEmpty (u, s) = is_empty s ≡ false

  -- The reference for closing: the channel leaves every set, and sets that are empty leave the map.
  unfoldable pub forget : ℕ → UserChannels K → UserChannels K
  forget c [] = []
  forget c ((u, s) ∷ m) =
      if is_empty (set_remove c s) then forget c m else (u, set_remove c s) ∷ forget c m

  pub untrack_missing : (c : ℕ) (m : UserChannels K) → owner c m ≡ none → untrack c m ≡ (m, none)
  unfolding untrack owner
  untrack_missing c [] h = refl
  untrack_missing c ((u, s) ∷ m) h = ground (arith, untrack_missing c m, set_remove_missing c s)

  pub forget_missing :
      (c : ℕ) (m : UserChannels K) → All NonEmpty m → owner c m ≡ none → forget c m ≡ m
  unfolding forget owner
  forget_missing c [] e h = refl
  forget_missing c ((u, s) ∷ m) e h = ground (arith, forget_missing c m e.1, set_remove_missing c s)

  pub owner-forget :
      (c j : ℕ) (m : UserChannels K) → owner j (forget c m) ≡ ite (ℕ_discrete c j) none (owner j m)
  unfolding forget owner
  owner-forget c j [] = ground arith
  owner-forget c j ((u, s) ∷ m) =
      ground (arith, owner-forget c j m, member-set_remove c j s, member_empty j (set_remove c s))

  pub forget-NonEmpty : (c : ℕ) (m : UserChannels K) → All NonEmpty (forget c m)
  unfolding forget
  forget-NonEmpty c [] = tt
  forget-NonEmpty c ((u, s) ∷ m) = ground (arith, forget-NonEmpty c m)

  pub forget-Once : (c j : ℕ) (m : UserChannels K) → Once j m → Once j (forget c m)
  unfolding forget Once
  forget-Once c j [] h = tt
  forget-Once c j ((u, s) ∷ m) h =
      ground (arith, forget-Once c j m h.1, owner-forget c j m, member-set_remove c j s)

  -- The loop finds a user to remove exactly when the reference drops an entry.
  pub length-forget :
      (c : ℕ) (m : UserChannels K)
      → All NonEmpty m
      → Once c m
      → length m ≡ length (forget c m) + (if is_some (untrack c m).1 then 1 else 0)
  unfolding forget Once untrack
  length-forget c [] e o = refl
  length-forget c ((u, s) ∷ m) e o = ground (
    arith,
    length-forget c m e.1 o.1,
    forget_missing c m e.1,
    untrack_missing c m,
    set_remove_missing c s,
  )

  untrack-owner :
      (c : ℕ) (m : UserChannels K) (w : K)
      → Once c m
      → (untrack c m).1 ≡ some w
      → owner c m ≡ some w
  unfolding untrack owner Once
  untrack-owner c [] w o h = cc
  untrack-owner c ((u, s) ∷ m) w o h = ground (arith, untrack-owner c m w o.1, untrack_missing c m)

module _ {K : Type 0} (d : Discrete K) where
  -- `user_channels.entry(user_id).or_default().insert(channel_id)`.
  unfoldable pub track : K → ℕ → UserChannels K → UserChannels K
  track u c m = insert d u (set_insert c (or_default (get d u m))) m

  -- What `close_channel` leaves of `user_channels`.
  unfoldable pub close_users : ℕ → UserChannels K → UserChannels K
  close_users c m = elim (untrack c m).1 [
    | none ↦ (untrack c m).0
    | some u ↦ remove d u (untrack c m).0
  ]

  owner-get : (c : ℕ) (m : UserChannels K) (w : K) → owner c m ≡ some w → get d w m ≢ none
  unfolding owner get
  owner-get c [] w h = λ e. cc
  owner-get c ((u, s) ∷ m) w h = ground (arith, owner-get c m w)

  -- If no user is entered twice, no set is empty and the channel is in one set at most, then the loop
  -- that stops at the first set with the channel takes it from all of them, and removes exactly the
  -- user whom it leaves without a channel.
  pub close_users-forget :
      (c : ℕ) (m : UserChannels K)
      → Distinct d m
      → All NonEmpty m
      → Once c m
      → close_users c m ≡ forget c m
  unfolding close_users untrack forget Distinct Once remove
  close_users-forget c [] h e o = refl
  close_users-forget c ((u, s) ∷ m) h e o = ground (
    arith,
    close_users-forget c m h.1 e.1 o.1,
    forget_missing c m e.1,
    untrack_missing c m,
    set_remove_missing c s,
    remove_missing d u m,
    owner-get c m u,
    untrack-owner c m u o.1,
  )

  get-forget_missing :
      (c : ℕ) (u : K) (m : UserChannels K) → get d u m ≡ none → get d u (forget c m) ≡ none
  unfolding get forget
  get-forget_missing c u [] h = refl
  get-forget_missing c u ((v, s) ∷ m) h = ground (arith, get-forget_missing c u m)

  pub forget-Distinct : (c : ℕ) (m : UserChannels K) → Distinct d m → Distinct d (forget c m)
  unfolding forget Distinct
  forget-Distinct c [] h = tt
  forget-Distinct c ((u, s) ∷ m) h =
      ground (arith, forget-Distinct c m h.1, get-forget_missing c u m)

  module _ (u : K) (s : List ℕ) (j : ℕ) where
    owner-insert_same :
        (m : UserChannels K)
        → member j s ≡ member j (or_default (get d u m))
        → owner j (insert d u s m) ≡ owner j m
    unfolding owner insert get member
    owner-insert_same [] h = ground arith
    owner-insert_same ((v, t) ∷ m) h = ground (arith, owner-insert_same m)

    owner-insert_fresh :
        (m : UserChannels K)
        → owner j m ≡ none
        → member j s ≡ true
        → owner j (insert d u s m) ≡ some u
    unfolding owner insert
    owner-insert_fresh [] h k = ground arith
    owner-insert_fresh ((v, t) ∷ m) h k = ground (arith, owner-insert_fresh m)

    Once-insert_same :
        (m : UserChannels K)
        → member j s ≡ member j (or_default (get d u m))
        → Once j m
        → Once j (insert d u s m)
    unfolding owner insert get Once member
    Once-insert_same [] h o = ground arith
    Once-insert_same ((v, t) ∷ m) h o = ground (arith, Once-insert_same m, owner-insert_same m)

    Once-insert_fresh : (m : UserChannels K) → owner j m ≡ none → Once j m → Once j (insert d u s m)
    unfolding owner insert Once
    Once-insert_fresh [] h o = ground arith
    Once-insert_fresh ((v, t) ∷ m) h o = ground (arith, Once-insert_fresh m)

  insert-NonEmpty :
      (u : K) (s : List ℕ) (m : UserChannels K)
      → is_empty s ≡ false
      → All NonEmpty m
      → All NonEmpty (insert d u s m)
  unfolding insert
  insert-NonEmpty u s [] h e = (h, tt)
  insert-NonEmpty u s ((v, t) ∷ m) h e = ground (arith, insert-NonEmpty u s m h e.1)

  pub track-NonEmpty :
      (u : K) (c : ℕ) (m : UserChannels K) → All NonEmpty m → All NonEmpty (track u c m)
  unfolding track
  track-NonEmpty u c m = insert-NonEmpty u _ m (set_insert_not_empty c _)

  -- Opening a new channel gives it to the user, and no other channel changes hands.
  pub owner-track :
      (u : K) (c j : ℕ) (m : UserChannels K)
      → owner c m ≡ none
      → owner j (track u c m) ≡ ite (ℕ_discrete c j) (some u) (owner j m)
  unfolding track
  owner-track u c j m h =
      let old = or_default (get d u m) in
      ground (
        arith,
        member-set_insert c j old,
        owner-insert_same u (set_insert c old) j m,
        owner-insert_fresh u (set_insert c old) j m,
      )

  pub track-Once :
      (u : K) (c j : ℕ) (m : UserChannels K) → owner c m ≡ none → Once j m → Once j (track u c m)
  unfolding track
  track-Once u c j m h o =
      let old = or_default (get d u m) in
      ground (
        arith,
        member-set_insert c j old,
        Once-insert_same u (set_insert c old) j m,
        Once-insert_fresh u (set_insert c old) j m,
      )

  pub track-Distinct :
      (u : K) (c : ℕ) (m : UserChannels K) → Distinct d m → Distinct d (track u c m)
  unfolding track
  track-Distinct u c m = insert-Distinct d u _ m

  pub length-track :
      (u : K) (c : ℕ) (m : UserChannels K)
      → length (track u c m) ≡ length m + (if contains_key d u m then 0 else 1)
  unfolding track
  length-track u c m = elim (Option-cases (get d u m)) [
    | inl e ↦ rw (e, length-insert_new d u _ m e) (omega arith)
    | inr (s, e) ↦ rw (e, length-insert_old d u _ s m e) (omega arith)
  ]

  owner-member :
      (u : K) (c : ℕ) (m : UserChannels K)
      → owner c m ≡ none
      → member c (or_default (get d u m)) ≡ false
  unfolding owner get member
  owner-member u c [] h = refl
  owner-member u c ((v, s) ∷ m) h = ground (arith, owner-member u c m)

  forget-insert :
      (u : K) (c : ℕ) (t : List ℕ) (m : UserChannels K)
      → All NonEmpty m
      → owner c m ≡ none
      → set_remove c t ≡ or_default (get d u m)
      → forget c (insert d u t m) ≡ m
  unfolding forget insert get owner
  forget-insert u c t [] e h k = ground arith
  forget-insert u c t ((v, s) ∷ m) e h k =
      ground (arith, forget-insert u c t m e.1, forget_missing c m e.1, set_remove_missing c s)

  -- Closing what was opened gives back the map as it was.
  pub forget-track :
      (u : K) (c : ℕ) (m : UserChannels K)
      → All NonEmpty m
      → owner c m ≡ none
      → forget c (track u c m) ≡ m
  unfolding track
  forget-track u c m e h =
      forget-insert u c _ m e h (set_remove-set_insert c _ (owner-member u c m h))
