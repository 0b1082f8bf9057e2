-- ===== src/Guest/Channels.antt =====
-- vsock.rs: the channels of terminals, and the frames on the host's socket.
pub mod Allocation
pub mod Frames
use mjolnir.Base.{
  ℕ, zero, suc, ◌+◌, ◌%◌, ◌^◌, Bool, true, false, Option, none, some, List, [], ◌∷◌, ◌++◌,
  if◌then◌else◌, ◌==◌, length, any, filter, not,
}
use mjolnir.Base.Bytes.{to_be32}

-- `writers` is the map from channels to writers, as its entries.
pub record PtyManager (W : Type 0) : Type 0 where
  pub writers : List (ℕ × W)
  pub next_channel : ℕ

abbrev skip_zero : ℕ → ℕ
skip_zero ch = if ch == 0 then 1 else ch

-- `wrapping_add(1)` on a `u8`, past the channel 0.
unfoldable pub advance : ℕ → ℕ
advance ch = skip_zero ((ch + 1) % 256)

module _ {W : Type 0} where
  abbrev pub on : ℕ → ℕ × W → Bool
  on ch e = e.0 == ch

  abbrev pub contains_key : ℕ → List (ℕ × W) → Bool
  contains_key ch writers = any (on ch) writers

  unfoldable pub new_manager : PtyManager W
  new_manager = record { writers = []; next_channel = 1 }

  -- The loop of `allocate_channel`, of as many rounds.
  unfoldable pub allocate_in : ℕ → PtyManager W → Option ℕ × PtyManager W
  unfolding advance
  allocate_in zero m = (none, m)
  allocate_in (suc rounds) m =
      let ch = m.next_channel in
      let m' = record m { next_channel = advance ch } in
      let later = allocate_in rounds m' in
      if contains_key ch m.writers then later else (some ch, m')

  unfoldable pub allocate_channel : PtyManager W → Option ℕ × PtyManager W
  unfolding allocate_in
  allocate_channel m = allocate_in 255 m

  unfoldable pub insert : ℕ → W → PtyManager W → PtyManager W
  insert ch w m = record m { writers = (ch, w) ∷ filter (λ e. not (on ch e)) m.writers }

  unfoldable pub remove : ℕ → PtyManager W → PtyManager W
  remove ch m = record m { writers = filter (λ e. not (on ch e)) m.writers }

-- `frame_binary`, and `frame_message` of what the JSON library makes of the message.
unfoldable pub frame_binary : ℕ → List ℕ → List ℕ
frame_binary channel data' = channel ∷ to_be32 (length data' % 2 ^ 32) ++ data'
