-- ===== src/Guest/Channels/Allocation.antt =====
-- A channel that is allocated is free, and one is found unless all 255 are taken.
use mjolnir.Base.{
  ℕ, zero, suc, ◌+◌, ◌-◌, ◌%◌, ◌≤◌, ◌<◌, ◌≡◌, inl, inr, refl, true, false, Option, none, some,
  Bool-cases, arith,
}
use mjolnir.Guest.Channels.{PtyManager, contains_key, advance, allocate_in, allocate_channel}

-- The channels that a terminal may have; 0 is the channel of control messages.
abbrev pub IsChannel : ℕ → Type 0
IsChannel ch = (1 ≤ ch) × (ch ≤ 255)

advance-IsChannel : (ch : ℕ) → IsChannel ch → IsChannel (advance ch)
unfolding advance
advance-IsChannel ch h = ground arith

-- The channel that is tried in round `i`, counted from 0.
abbrev tried : ℕ → ℕ → ℕ
tried start i = 1 + (start + 254 + i) % 255

tried-advance : (ch i : ℕ) → IsChannel ch → tried (advance ch) i ≡ tried ch (suc i)
unfolding advance
tried-advance ch i h = ground arith

round_of :
    (start ch : ℕ) → IsChannel start → IsChannel ch → (i : ℕ) × (i < 255) × (tried start i ≡ ch)
round_of start ch s c = ((ch + 255 - start) % 255, omega arith, omega arith)

module _ {W : Type 0} where
  allocate_in-some :
      (rounds : ℕ) (m : PtyManager W) (ch : ℕ) (m' : PtyManager W)
      → IsChannel m.next_channel
      → allocate_in rounds m ≡ (some ch, m')
      → IsChannel ch
        × (contains_key ch m.writers ≡ false)
        × (m'.writers ≡ m.writers)
        × IsChannel m'.next_channel
  unfolding allocate_in
  allocate_in-some zero m ch m' c h = cc
  allocate_in-some (suc rounds) m ch m' c h =
      elim (Bool-cases (contains_key m.next_channel m.writers)) [
        | inl taken ↦
            allocate_in-some rounds (record m { next_channel = advance m.next_channel }) ch m'
              (advance-IsChannel m.next_channel c) (ground arith)
        | inr free ↦
            let here : m.next_channel ≡ ch = ground arith in
            let after : record m { next_channel = advance m.next_channel } ≡ m' = ground arith in
            rw (← here, ← after) (c, free, refl, advance-IsChannel m.next_channel c)
      ]

  allocate_in-none :
      (rounds : ℕ) (m m' : PtyManager W)
      → IsChannel m.next_channel
      → allocate_in rounds m ≡ (none, m')
      → (i : ℕ) → i < rounds
      → contains_key (tried m.next_channel i) m.writers ≡ true
  unfolding allocate_in
  allocate_in-none zero m m' c h i k = absurd (omega arith)
  allocate_in-none (suc rounds) m m' c h zero k =
      let same : tried m.next_channel zero ≡ m.next_channel = omega arith in rw same (ground arith)
  allocate_in-none (suc rounds) m m' c h (suc i) k = rw (← tried-advance m.next_channel i c) (
      allocate_in-none rounds (record m { next_channel = advance m.next_channel }) m'
        (advance-IsChannel m.next_channel c) (ground arith) i (omega arith))

  -- With the channel to try next in range, a channel that is allocated is in 1..255 and has no writer; no writer is changed, and the
  -- channel to try next is in range again.
  pub allocate_channel-free :
      (m : PtyManager W) (ch : ℕ) (m' : PtyManager W)
      → IsChannel m.next_channel
      → allocate_channel m ≡ (some ch, m')
      → IsChannel ch
        × (contains_key ch m.writers ≡ false)
        × (m'.writers ≡ m.writers)
        × IsChannel m'.next_channel
  unfolding allocate_channel
  allocate_channel-free m ch m' c h = allocate_in-some 255 m ch m' c h

  -- Where some channel in 1..255 has no writer and the one to try next is in range, one is allocated: 255 rounds are enough.
  pub allocate_channel-total :
      (m : PtyManager W) (free : ℕ)
      → IsChannel m.next_channel
      → IsChannel free
      → contains_key free m.writers ≡ false
      → (ch : ℕ) × ((allocate_channel m).0 ≡ some ch)
  unfolding allocate_channel
  allocate_channel-total m free c f h = found (allocate_in 255 m).0 refl
    where
      found :
          (o : Option ℕ) → (allocate_in 255 m).0 ≡ o → (ch : ℕ) × ((allocate_in 255 m).0 ≡ some ch)
      found (some ch) e = (ch, e)
      found none e =
          let (i, k, same) = round_of m.next_channel free c f in
          let taken = allocate_in-none 255 m (allocate_in 255 m).1 c (cc e) i k in
          absurd (cc (taken, same, h))
