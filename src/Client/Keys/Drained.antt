-- ===== src/Client/Keys/Drained.antt =====
-- connect.rs: `push` and `flush` lose no byte, and stop where they mean to.
use mjolnir.Base.{
  ltb, ◌==◌, ◌&&◌, not, ℕ, zero, suc, ◌≤◌, ◌-◌, min, max, Bool, true, false, List, [], ◌∷◌, ◌++◌,
  if◌then◌else◌, length, take, drop, arith, ◌≡◌, refl, ◌⊎◌, inl, inr, append_assoc, append_nil,
}
use mjolnir.Client.Keys.Sequence.Forms.{csi_printable-told}
use mjolnir.Client.Keys.Sequence.{Params, here, there, IsPrintable, Ends, CsiTold}
use mjolnir.Client.Keys.{
  KeyScan, forward, ascii_key, need_more, Csi, ascii_csi, csi_printable, scan_legacy_key, drain,
  KeyNormalizer, push, flush, scanned_csi,
}

-- `out` is what was typed in `typed`, where some whole sequences, of an escape, a bracket, parameters and one
-- last byte, are each one printable character.
pub data Normalized : List ℕ → List ℕ → Type 0 where
  done : Normalized [] []
  pass : {c : ℕ} {typed out : List ℕ} → Normalized typed out → Normalized (c ∷ typed) (c ∷ out)
  key :
      {s rest out : List ℕ} {last byte : ℕ}
      → Params s (last ∷ rest)
      → (last ≡ b'u') ⊎ (last ≡ b'~')
      → IsPrintable byte
      → Normalized rest out
      → Normalized (27 ∷ b'[' ∷ s) (byte ∷ out)

Normalized-refl : (s : List ℕ) → Normalized s s
Normalized-refl [] = done
Normalized-refl (c ∷ s) = pass (Normalized-refl s)

Normalized-take :
    (n : ℕ) (s out : List ℕ) → Normalized (drop n s) out → Normalized s (take n s ++ out)
Normalized-take zero s out h = h
Normalized-take (suc n) [] out h = h
Normalized-take (suc n) (c ∷ s) out h = pass (Normalized-take n s out h)

drop-min : (n : ℕ) (s : List ℕ) → drop (min n (length s)) s ≡ drop n s
drop-min zero s = let e : min 0 (length s) ≡ 0 = omega arith in rw e refl
drop-min (suc n) [] = let e : min (suc n) 0 ≡ 0 = omega arith in rw e refl
drop-min (suc n) (c ∷ s) =
    let e : min (suc n) (suc (length s)) ≡ suc (min n (length s)) = omega arith in
    rw e (drop-min n s)

length-drop_lt : (n : ℕ) (c : ℕ) (s : List ℕ) → 1 ≤ n → length (drop n (c ∷ s)) ≤ length s
length-drop_lt zero c s h = absurd (omega arith)
length-drop_lt (suc n) c s h = length-drop n s
  where
    length-drop : (n : ℕ) (s : List ℕ) → length (drop n s) ≤ length s
    length-drop zero s = omega arith
    length-drop (suc n) [] = omega arith
    length-drop (suc n) (c ∷ s) = omega (arith, length-drop n s)

-- Where the scan finds a key, the bytes begin its sequence.
record IsKey (held : List ℕ) (consumed byte : ℕ) : Type 0 where
  behind : List ℕ
  len : ℕ
  begins : held ≡ 27 ∷ b'[' ∷ behind
  found : csi_printable behind ≡ ascii_csi len byte
  counts : consumed ≡ suc (suc len)

scanned-key :
    (r : Csi) (consumed byte : ℕ)
    → scanned_csi r ≡ ascii_key consumed byte
    → (len : ℕ) × (r ≡ ascii_csi len byte) × (consumed ≡ suc (suc len))
scanned-key Csi.more_csi consumed byte h = cc
scanned-key Csi.no_csi consumed byte h = cc
scanned-key (ascii_csi len b) consumed byte h = (len, ground arith, ground arith)

scan-IsKey :
    (held : List ℕ) (consumed byte : ℕ)
    → scan_legacy_key held ≡ ascii_key consumed byte
    → IsKey held consumed byte
unfolding scan_legacy_key
scan-IsKey [] consumed byte h = cc
scan-IsKey (c ∷ []) consumed byte h = absurd (ground arith)
scan-IsKey (c ∷ d ∷ s) consumed byte h =
    let esc : c ≡ 27 = ground arith in
    let bracket : d ≡ b'[' = ground arith in
    let scanned : scanned_csi (csi_printable s) ≡ ascii_key consumed byte = ground arith in
    let (len, found, counts) = scanned-key (csi_printable s) consumed byte scanned in
    record { behind = s; len = len; begins = cc; found = found; counts = counts }

-- What may still become a sequence: an escape, or an escape and a bracket with parameters only.
pub data IsPrefix : List ℕ → Type 0 where
  lone : IsPrefix (27 ∷ [])
  opened : {s : List ℕ} → Params s [] → IsPrefix (27 ∷ b'[' ∷ s)

guarded-need_more :
    (n : ℕ) (escape short bracket long : Bool) (r : KeyScan)
    → short ≡ false
    → (if not escape
        then forward n
        else if short
        then need_more
        else if not bracket
        then forward 1
        else if long
        then forward 1
        else r)
      ≡ need_more
    → r ≡ need_more
guarded-need_more n escape short bracket long r s h = ground (arith, s, h)

need_more-IsPrefix : (held : List ℕ) → scan_legacy_key held ≡ need_more → IsPrefix held
unfolding scan_legacy_key
need_more-IsPrefix [] e = absurd cc
need_more-IsPrefix (c ∷ []) e = let esc : c ≡ 27 = ground (arith, e) in rw esc lone
need_more-IsPrefix (c ∷ d ∷ []) e =
    let esc : c ≡ 27 = ground (arith, e) in
    let bracket : d ≡ b'[' = ground (arith, e) in rw (esc, bracket) (opened here)
need_more-IsPrefix (c ∷ d ∷ f ∷ s) e =
    let esc : c ≡ 27 = ground (arith, e) in
    let bracket : d ≡ b'[' = ground (arith, e) in
    let more : scanned_csi (csi_printable (f ∷ s)) ≡ need_more =
      guarded-need_more _ (c == 27) (length (f ∷ s) == 0 && d == b'[') (d == b'[')
        (ltb 48 (length (c ∷ d ∷ f ∷ s))) _ (ground arith) e in
    rw (esc, bracket)
      (opened (told (f ∷ s) (csi_printable (f ∷ s)) (csi_printable-told (f ∷ s)) more))
  where
    told : (s : List ℕ) (o : Csi) → CsiTold s s o → scanned_csi o ≡ need_more → Params s []
    told s Csi.more_csi p e = p
    told s Csi.no_csi p e = absurd cc
    told s (ascii_csi len byte) p e = absurd cc

-- Nothing is held, or the start of a sequence is, and only where it may be held.
abbrev pub Settled : Bool → List ℕ → Type 0
Settled force held = (held ≡ []) ⊎ ((force ≡ false) × IsPrefix held)

-- What the loop makes of the bytes that are held.
record IsDrained (force : Bool) (held : List ℕ) (r : List ℕ × List ℕ) : Type 0 where
  normalized : Normalized held (r.0 ++ r.1)
  settled : Settled force r.1

KeyScan-cases :
    (r : KeyScan)
    → ((n : ℕ) × (r ≡ forward n)) ⊎ ((n : ℕ) × (b : ℕ) × (r ≡ ascii_key n b)) ⊎ (r ≡ need_more)
KeyScan-cases (forward n) = inl (n, refl)
KeyScan-cases (ascii_key n b) = inr (inl (n, b, refl))
KeyScan-cases need_more = inr (inr refl)

drop-Params :
    (s rest : List ℕ) (last : ℕ)
    → Params s (last ∷ rest)
    → (drop (length s - length rest) s ≡ rest) × (suc (length rest) ≤ length s)
drop-Params s rest last here =
    let one : suc (length rest) - length rest ≡ 1 = omega arith in (rw one refl, omega arith)
drop-Params (c ∷ s) rest last (there i p) =
    let (same, longer) = drop-Params s rest last p in
    let more : suc (length s) - length rest ≡ suc (length s - length rest) =
      omega (arith, longer) in
    (rw more same, omega (arith, longer))

CsiTold-Ends :
    {len byte : ℕ} (s : List ℕ) (o : Csi)
    → CsiTold s s o
    → o ≡ ascii_csi len byte
    → Ends s s len byte
CsiTold-Ends s Csi.more_csi t e = absurd cc
CsiTold-Ends s Csi.no_csi t e = absurd cc
CsiTold-Ends {len} {byte} s (ascii_csi l b) t e =
    let same_len : l ≡ len = cc in let same_byte : b ≡ byte = cc in rw (same_len, same_byte) at t

key-Normalized :
    {held : List ℕ} {consumed byte : ℕ} (k : IsKey held consumed byte) (out : List ℕ)
    → Normalized (drop consumed held) out
    → Normalized held (byte ∷ out)
key-Normalized {held} {consumed} {byte} k out h =
    let ends =
      CsiTold-Ends k.behind (csi_printable k.behind) (csi_printable-told k.behind) k.found in
    let (same, longer) = drop-Params k.behind ends.rest ends.last ends.params in
    let n : Normalized (drop k.len k.behind) out = rw (k.counts, k.begins) at h in
    let later : Normalized ends.rest out = rw (ends.counts, same) at n in
    rw k.begins (key ends.params ends.is_last ends.is_key later)

held_over :
    (force : Bool) (held : List ℕ)
    → scan_legacy_key held ≡ need_more
    → IsDrained force held (if force then (held, []) else ([], held))
held_over true held e = record {
  normalized = rw (append_nil held) (Normalized-refl held);
  settled = inl refl;
}
held_over false held e = record {
  normalized = Normalized-refl held;
  settled = inr (refl, need_more-IsPrefix held e);
}

drain-IsDrained :
    (fuel : ℕ) (force : Bool) (held : List ℕ)
    → length held ≤ fuel
    → IsDrained force held (drain fuel force held)
unfolding drain
drain-IsDrained zero force [] h = record { normalized = done; settled = inl refl }
drain-IsDrained zero force (c ∷ held) h = absurd (omega arith)
drain-IsDrained (suc fuel) force [] h = record { normalized = done; settled = inl refl }
drain-IsDrained (suc fuel) force (c ∷ held) h = elim (KeyScan-cases (scan_legacy_key (c ∷ held))) [
  | inl (n, e) ↦
      let m = min (max n 1) (length (c ∷ held)) in
      let some_byte : 1 ≤ m = omega arith in
      let fewer = length-drop_lt m c held some_byte in
      let ih = drain-IsDrained fuel force (drop m (c ∷ held)) (omega arith) in
      let (out, rest) = drain fuel force (drop m (c ∷ held)) in
      rw (drain, e)
        (record {
          normalized =
              rw (append_assoc (take m (c ∷ held)) out rest)
                (Normalized-take m (c ∷ held) (out ++ rest) ih.normalized);
          settled = ih.settled;
        })
  | inr (inl (consumed, byte, e)) ↦
      let k = scan-IsKey (c ∷ held) consumed byte e in
      let same = drop-min consumed (c ∷ held) in
      let fewer = length-drop_lt consumed c held (omega (arith, k.counts)) in
      let ih = drain-IsDrained fuel force (drop consumed (c ∷ held)) (omega arith) in
      let (out, rest) = drain fuel force (drop consumed (c ∷ held)) in
      rw (drain, e, same)
        (record { normalized = key-Normalized k (out ++ rest) ih.normalized; settled = ih.settled })
  | inr (inr e) ↦ rw (drain, e) (held_over force (c ∷ held) e)
]

-- Bytes that are typed come out in their order and unchanged, with nothing lost, but for whole sequences,
-- an escape, a bracket, digits with colons and semicolons, and a last u or tilde, each of which may
-- come out as one printable ASCII character; no byte behind its last one goes with it. What is
-- held back after them is nothing, or an escape, or an escape and a bracket with digits, colons
-- and semicolons only.
pub push-Normalized :
    (k : KeyNormalizer) (input : List ℕ)
    → let (out, after) = push k input in
      Normalized (k.pending ++ input) (out ++ after.pending) × Settled false after.pending
unfolding push
push-Normalized k input =
    let typed = k.pending ++ input in
    let d = drain-IsDrained (length typed) false typed (omega arith) in (d.normalized, d.settled)

-- After a flush nothing is held.
pub flush-Normalized :
    (k : KeyNormalizer)
    → let (out, after) = flush k in
      Normalized k.pending (out ++ after.pending) × (after.pending ≡ [])
unfolding flush
flush-Normalized k =
    let d = drain-IsDrained (length k.pending) true k.pending (omega arith) in
    (d.normalized, ground (arith, d.settled))
