-- ===== src/Tests/Protocol.antt =====
-- The frames of the shell protocol.
use mjolnir.Base.{◌≡◌, ◌++◌, refl, some, [], ◌∷◌, ok, codes, arith}
use mjolnir.Base.Bytes.{is_utf8, all-IsByte}
use mjolnir.Protocol.{Frame, resize, hello, encode, eof, io_error, read_frame}
use mjolnir.Protocol.RoundTrip.{IsSendable, read_frame-encode}
use mjolnir.Protocol.Reading.{encode-read_frame}

abbrev greeting : Frame
greeting = hello (record { rows = 24; cols = 80; version = 2; session = some (codes "main") })

greeting-encode :
    encode greeting ≡ 4 ∷ 0 ∷ 0 ∷ 0 ∷ 10 ∷ 0 ∷ 24 ∷ 0 ∷ 80 ∷ 0 ∷ 2 ∷ 109 ∷ 97 ∷ 105 ∷ 110 ∷ []
unfolding encode
greeting-encode = refl

greeting-IsSendable : IsSendable greeting
greeting-IsSendable =
    (omega arith, omega arith, omega arith, ((λ e. cc), omega arith, unfold is_utf8 in refl))

read_frame-encode_example :
    read_frame (record { bytes = encode greeting ++ (7 ∷ []); end = io_error })
    ≡ ok (some greeting, record { bytes = 7 ∷ []; end = io_error })
read_frame-encode_example = read_frame-encode greeting (7 ∷ []) io_error greeting-IsSendable

encode-read_frame_example :
    encode (resize 24 80) ++ (9 ∷ []) ≡ 2 ∷ 0 ∷ 0 ∷ 0 ∷ 4 ∷ 0 ∷ 24 ∷ 0 ∷ 80 ∷ 9 ∷ []
encode-read_frame_example =
    encode-read_frame (2 ∷ 0 ∷ 0 ∷ 0 ∷ 4 ∷ 0 ∷ 24 ∷ 0 ∷ 80 ∷ 9 ∷ []) eof (resize 24 80)
      (record { bytes = 9 ∷ []; end = eof })
      (all-IsByte (2 ∷ 0 ∷ 0 ∷ 0 ∷ 4 ∷ 0 ∷ 24 ∷ 0 ∷ 80 ∷ 9 ∷ []) refl) (unfold read_frame in refl)
