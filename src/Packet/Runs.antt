-- ===== src/Packet/Runs.antt =====
-- Runs of the packet encoder and decoder at concrete inputs.
use asyncssh.Base.{
  ℕ, ◌+◌, ◌<◌, ◌≤◌, ◌^◌, ◌≡◌, refl, arith, List, [], ◌∷◌, ◌++◌, ok, err, length, overflow_error,
  packet_decode_error,
}
use asyncssh.Base.Bytes.{to_bytes, big_endian, from_bytes}
use asyncssh.Base.Int.{pos, negsuc, FitsSigned, bit_length, to_bytes_signed}
use asyncssh.Packet.{
  init, mpint, mpint_size, name_list, string, uint32, get_mpint, get_namelist, get_string,
  get_consumed_payload, get_remaining_payload,
}
use asyncssh.Packet.Decoder.{Method, after_all, payload_split}
use asyncssh.Packet.RoundTrip.{cursor, get_string-string}
use asyncssh.Packet.Mpint.{get_mpint-mpint, mpint_minimal}
use asyncssh.Packet.Names.{get_namelist-name_list}

mpint_128 : mpint (pos 128) ≡ ok (0 ∷ 0 ∷ 0 ∷ 2 ∷ 0 ∷ 128 ∷ [])
unfolding mpint mpint_size bit_length to_bytes big_endian to_bytes_signed
mpint_128 = refl

mpint_lowest : mpint (negsuc 127) ≡ ok (0 ∷ 0 ∷ 0 ∷ 1 ∷ 128 ∷ [])
unfolding mpint mpint_size bit_length to_bytes big_endian to_bytes_signed
mpint_lowest = refl

mpint_zero : mpint (pos 0) ≡ ok (0 ∷ 0 ∷ 0 ∷ 0 ∷ [])
unfolding mpint mpint_size bit_length to_bytes big_endian to_bytes_signed
mpint_zero = refl

uint32_overflow : uint32 (2 ^ 32) ≡ err overflow_error
unfolding uint32 to_bytes
uint32_overflow = refl

two_names :
    name_list ((b'a' ∷ []) ∷ (b'b' ∷ []) ∷ []) ≡ ok (0 ∷ 0 ∷ 0 ∷ 3 ∷ b'a' ∷ b',' ∷ b'b' ∷ [])
unfolding name_list to_bytes big_endian
two_names = refl

string_hi : string (b'h' ∷ b'i' ∷ []) ≡ ok (0 ∷ 0 ∷ 0 ∷ 2 ∷ b'h' ∷ b'i' ∷ [])
unfolding string to_bytes big_endian
string_hi = refl

-- A size that reaches past the end is refused, with the four bytes of the size consumed.
get_string_cut : (get_string (init (0 ∷ 0 ∷ 0 ∷ 9 ∷ 1 ∷ []))).0 ≡ err packet_decode_error
unfolding get_string init from_bytes
get_string_cut = refl

get_string_cut_consumed : (get_string (init (0 ∷ 0 ∷ 0 ∷ 9 ∷ 1 ∷ []))).1.idx ≡ 4
unfolding get_string init from_bytes
get_string_cut_consumed = refl

get_mpint-mpint_example :
    get_mpint (cursor (7 ∷ []) (0 ∷ 0 ∷ 0 ∷ 1 ∷ 128 ∷ 9 ∷ []))
    ≡ (ok (negsuc 127), cursor (7 ∷ 0 ∷ 0 ∷ 0 ∷ 1 ∷ 128 ∷ []) (9 ∷ []))
get_mpint-mpint_example =
    get_mpint-mpint (negsuc 127) (0 ∷ 0 ∷ 0 ∷ 1 ∷ 128 ∷ []) (7 ∷ []) (9 ∷ []) mpint_lowest

mpint_size_128 : mpint_size (pos 128) ≡ 2
unfolding mpint_size bit_length
mpint_size_128 = refl

mpint_minimal_example :
    (enc : List ℕ) × (mpint (pos 128) ≡ ok enc)
    × (length enc ≡ 4 + mpint_size (pos 128))
    × ((k : ℕ) → k < mpint_size (pos 128) → ¬ FitsSigned k (pos 128))
mpint_minimal_example = mpint_minimal (pos 128) (omega (arith, mpint_size_128))

get_namelist-name_list_example :
    get_namelist (cursor [] (0 ∷ 0 ∷ 0 ∷ 3 ∷ b'a' ∷ b',' ∷ b'b' ∷ 1 ∷ [])) ≡ (
      ok ((b'a' ∷ []) ∷ (b'b' ∷ []) ∷ []),
      cursor (0 ∷ 0 ∷ 0 ∷ 3 ∷ b'a' ∷ b',' ∷ b'b' ∷ []) (1 ∷ []),
    )
get_namelist-name_list_example =
    get_namelist-name_list ((b'a' ∷ []) ∷ (b'b' ∷ []) ∷ [])
      (0 ∷ 0 ∷ 0 ∷ 3 ∷ b'a' ∷ b',' ∷ b'b' ∷ []) [] (1 ∷ [])
      (((omega arith, tt), ((omega arith, tt), tt)), λ e. cc) two_names

get_string-string_example :
    get_string (cursor (5 ∷ []) (0 ∷ 0 ∷ 0 ∷ 2 ∷ b'h' ∷ b'i' ∷ 3 ∷ []))
    ≡ (ok (b'h' ∷ b'i' ∷ []), cursor (5 ∷ 0 ∷ 0 ∷ 0 ∷ 2 ∷ b'h' ∷ b'i' ∷ []) (3 ∷ []))
get_string-string_example =
    get_string-string (b'h' ∷ b'i' ∷ []) (0 ∷ 0 ∷ 0 ∷ 2 ∷ b'h' ∷ b'i' ∷ []) (5 ∷ []) (3 ∷ [])
      string_hi

abbrev three_reads : List Method
three_reads = Method.byte ∷ Method.string ∷ Method.uint32 ∷ []

payload_split_example :
    ((after_all three_reads (init (1 ∷ 0 ∷ 0 ∷ 0 ∷ 1 ∷ 9 ∷ 4 ∷ []))).idx ≤ 7)
    × (get_consumed_payload (after_all three_reads (init (1 ∷ 0 ∷ 0 ∷ 0 ∷ 1 ∷ 9 ∷ 4 ∷ [])))
          ++ get_remaining_payload (after_all three_reads (init (1 ∷ 0 ∷ 0 ∷ 0 ∷ 1 ∷ 9 ∷ 4 ∷ [])))
        ≡ 1 ∷ 0 ∷ 0 ∷ 0 ∷ 1 ∷ 9 ∷ 4 ∷ [])
payload_split_example = payload_split (1 ∷ 0 ∷ 0 ∷ 0 ∷ 1 ∷ 9 ∷ 4 ∷ []) three_reads
