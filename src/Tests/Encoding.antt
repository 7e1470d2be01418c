-- ===== src/Tests/Encoding.antt =====
-- An encoding of the commands, in place of serde_cbor, for the examples.
use block_rust.Base.{
  ℕ, zero, suc, ◌≡◌, refl, List, [], ◌∷◌, arith, ◌==◌, if◌then◌else◌, Outcome, ok, err, codec,
}
use block_rust.Types.{Key}
use block_rust.Command.{
  Command, open_batch, write, delete, delete_range, push_save_point, pop_save_point,
  rollback_save_point, ready_commit, abort_commit, close,
}
use block_rust.MemLogFile.{Codec}

-- A key in front of other bytes, with a mark at its end.
unfoldable pub with_key : Key → List ℕ → List ℕ
with_key [] rest = 0 ∷ rest
with_key (x ∷ key) rest = suc x ∷ with_key key rest

unfoldable pub split_key : List ℕ → Key × List ℕ
split_key [] = ([], [])
split_key (zero ∷ rest) = ([], rest)
split_key (suc x ∷ bytes) = let (key, rest) = split_key bytes in (x ∷ key, rest)

split_key-with_key : (key : Key) (rest : List ℕ) → split_key (with_key key rest) ≡ (key, rest)
unfolding split_key with_key
split_key-with_key [] rest = refl
split_key-with_key (x ∷ key) rest = rw (split_key-with_key key rest)

abbrev pub encode : Command → List ℕ
encode (open_batch b) = 0 ∷ b ∷ []
encode (write b key value) = 1 ∷ b ∷ with_key key value
encode (delete b key) = 2 ∷ b ∷ key
encode (delete_range b start_key end_key) = 3 ∷ b ∷ with_key start_key end_key
encode (push_save_point b) = 4 ∷ b ∷ []
encode (pop_save_point b) = 5 ∷ b ∷ []
encode (rollback_save_point b) = 6 ∷ b ∷ []
encode (ready_commit b c) = 7 ∷ b ∷ c ∷ []
encode (abort_commit b c) = 8 ∷ b ∷ c ∷ []
encode (close b) = 9 ∷ b ∷ []

abbrev pub head : List ℕ → ℕ
head [] = 0
head (x ∷ xs) = x

unfoldable pub decode : List ℕ → Outcome Command
decode [] = err codec
decode (tag ∷ []) = err codec
decode (tag ∷ b ∷ rest) =
    if tag == 0
    then ok (open_batch b)
    else (if tag == 1
        then ok (write b (split_key rest).0 (split_key rest).1)
        else (if tag == 2
            then ok (delete b rest)
            else (if tag == 3
                then ok (delete_range b (split_key rest).0 (split_key rest).1)
                else (if tag == 4
                    then ok (push_save_point b)
                    else (if tag == 5
                        then ok (pop_save_point b)
                        else (if tag == 6
                            then ok (rollback_save_point b)
                            else (if tag == 7
                                then ok (ready_commit b (head rest))
                                else (if tag == 8
                                    then ok (abort_commit b (head rest))
                                    else ok (close b)))))))))

decode-encode : (cmd : Command) → decode (encode cmd) ≡ ok cmd
unfolding decode
decode-encode (write b key value) = rw (split_key-with_key key value)
decode-encode (delete_range b start_key end_key) = rw (split_key-with_key start_key end_key)
decode-encode (open_batch b) = refl
decode-encode (delete b key) = refl
decode-encode (push_save_point b) = refl
decode-encode (pop_save_point b) = refl
decode-encode (rollback_save_point b) = refl
decode-encode (ready_commit b c) = refl
decode-encode (abort_commit b c) = refl
decode-encode (close b) = refl

pub round_trip : (cmd : Command) (bin : List ℕ) → ok (encode cmd) ≡ ok bin → decode bin ≡ ok cmd
round_trip cmd bin h = ground (arith, h, decode-encode cmd)

abbrev pub command_codec : Codec Command
command_codec = record {
  to_vec = λ cmd. ok (encode cmd);
  from_slice = decode;
  round_trip = round_trip;
}
