-- ===== src/Crypt/Tests.antt =====
-- Concrete instances of the theorems on luaclib-src/lua-crypt.cpp.
use skynet.Base.{ℕ, ap, get_or, ◌^◌, ◌%◌, some, none, replicate, ◌≡◌, refl, List, [], ◌∷◌, arith}
use skynet.Crypt.{returned}
use skynet.Crypt.Bytes.{are_bytes_lem}
use skynet.Crypt.Des.{
  get_uint32, put_uint32, delta_swap, exchange, rotate_left, rotate_right, des_ip, des_fp,
  des_round, des_rounds, crypt_words, des_crypt,
}
use skynet.Crypt.Des.Keys.{des_main_ks, subkeys, left_half, right_half, first_subkey, second_subkey}
use skynet.Crypt.Text.{des_encode, des_decode, padding_remove_pkcs7, same_before}
use skynet.Crypt.Codes.{
  from_hex, from_pairs, hex_value, outcome, base64_encode, base64_decode, decode_groups,
  group_bytes, read_signs, sign_bytes, b64index, xor_str,
}
use skynet.Crypt.Codes.Base64.{base64_decode-base64_encode}
use skynet.Crypt.Dh.{dh_secret, dh_exchange, pow_mod_p, powmodp, prime}
use skynet.Crypt.Dh.Arith.{powmodp_lem}
use skynet.Crypt.Dh.Agree.{dh_secret-dh_exchange}
use skynet.Crypt.Digest.{digest_md5, md5_rounds, md5_round, md5_mix, hmac64_md5}
use skynet.Crypt.Digest.Sum.{words_of, md5_sum, hmac64_md5-md5_sum}
use skynet.Crypt.Dh.{word_of}
use skynet.Crypt.Codes.{xor_str}
use skynet.Base.{take, drop, ◌++◌}
use skynet.Crypt.Text.Roundtrip.{des_decode-des_encode}

abbrev key : List ℕ
key = 0x13 ∷ 0x34 ∷ 0x57 ∷ 0x79 ∷ 0x9B ∷ 0xBC ∷ 0xDF ∷ 0xF1 ∷ []

abbrev ten_bytes : List ℕ
ten_bytes = 0x01 ∷ 0x23 ∷ 0x45 ∷ 0x67 ∷ 0x89 ∷ 0xAB ∷ 0xCD ∷ 0xEF ∷ 0x00 ∷ 0x80 ∷ []

-- A block that is known from descriptions of DES.
known_block :
    des_crypt (des_main_ks key) (0x01 ∷ 0x23 ∷ 0x45 ∷ 0x67 ∷ 0x89 ∷ 0xAB ∷ 0xCD ∷ 0xEF ∷ [])
    ≡ 0x85 ∷ 0xE8 ∷ 0x13 ∷ 0x54 ∷ 0x0F ∷ 0x0A ∷ 0xB4 ∷ 0x05 ∷ []
unfolding des_crypt crypt_words des_rounds des_round des_ip des_fp delta_swap exchange rotate_left
    rotate_right put_uint32 get_uint32 des_main_ks subkeys left_half right_half first_subkey
    second_subkey
known_block = refl

des_decode-des_encode_example :
    (c : List ℕ) × (des_encode key ten_bytes 1 ≡ returned c)
    × (des_decode key c 1 ≡ returned ten_bytes)
des_decode-des_encode_example =
    des_decode-des_encode key ten_bytes 1 refl (are_bytes_lem ten_bytes refl) (omega arith)
      (omega arith)

-- "Wg" passes for hex.
passing : from_hex (87 ∷ 103 ∷ []) ≡ returned (16 ∷ [])
unfolding from_hex from_pairs hex_value outcome
passing = refl

base64_decode-base64_encode_example :
    (c : List ℕ) × (base64_encode ten_bytes ≡ returned c) × (base64_decode c ≡ returned ten_bytes)
base64_decode-base64_encode_example =
    base64_decode-base64_encode ten_bytes (are_bytes_lem ten_bytes refl) (omega arith)

-- The end of "aGVsbG8=" (hello), and a text with bits that no byte takes.
hello :
    base64_decode (97 ∷ 71 ∷ 86 ∷ 115 ∷ 98 ∷ 71 ∷ 56 ∷ 61 ∷ [])
    ≡ returned (104 ∷ 101 ∷ 108 ∷ 108 ∷ 111 ∷ [])
unfolding base64_decode decode_groups group_bytes read_signs sign_bytes b64index outcome
hello = refl

-- Eight bytes 255 of a decoded text: `padding_remove_pkcs7` looks before them.
bytes_before : padding_remove_pkcs7 (replicate 8 255) ≡ none
unfolding padding_remove_pkcs7 same_before
bytes_before = refl

abbrev other_key : List ℕ
other_key = 0 ∷ 1 ∷ 0 ∷ 0 ∷ 0 ∷ 0 ∷ 0 ∷ 0 ∷ []

dh_secret-dh_exchange_example :
    (sent_x sent_y secret : List ℕ) × (dh_exchange key ≡ returned sent_x)
    × (dh_exchange other_key ≡ returned sent_y)
    × (dh_secret sent_y key ≡ returned secret)
    × (dh_secret sent_x other_key ≡ returned secret)
dh_secret-dh_exchange_example =
    dh_secret-dh_exchange key other_key (are_bytes_lem key refl) (are_bytes_lem other_key refl) refl
      refl (λ e. omega (arith, ap (λ xs. get_or xs 0 0) e))
      (λ e. omega (arith, ap (λ xs. get_or xs 1 0) e))

powmodp_lem_example : powmodp 7 100 ≡ some (7 ^ 100 % prime)
powmodp_lem_example = powmodp_lem 7 100 (omega arith) (omega arith) (omega arith)

-- The base P itself is not reduced.
base_prime : powmodp prime 1 ≡ some prime
unfolding powmodp pow_mod_p
base_prime = refl

-- The MD5 sums of "" and "abc" in RFC 1321.
sum_of_nothing :
    md5_sum []
    ≡ 0xd4 ∷ 0x1d ∷ 0x8c ∷ 0xd9 ∷ 0x8f ∷ 0x00 ∷ 0xb2 ∷ 0x04 ∷ 0xe9 ∷ 0x80 ∷ 0x09 ∷ 0x98 ∷ 0xec
      ∷ 0xf8 ∷ 0x42 ∷ 0x7e ∷ []
unfolding md5_sum words_of word_of digest_md5 md5_rounds md5_round md5_mix
sum_of_nothing = refl

sum_of_abc :
    md5_sum (97 ∷ 98 ∷ 99 ∷ [])
    ≡ 0x90 ∷ 0x01 ∷ 0x50 ∷ 0x98 ∷ 0x3c ∷ 0xd2 ∷ 0x4f ∷ 0xb0 ∷ 0xd6 ∷ 0x96 ∷ 0x3f ∷ 0x7d ∷ 0x28
      ∷ 0xe1 ∷ 0x7f ∷ 0x72 ∷ []
unfolding md5_sum words_of word_of digest_md5 md5_rounds md5_round md5_mix
sum_of_abc = refl

hmac64_md5-md5_sum_example :
    let m = md5_sum (key ++ (other_key ++ (key ++ (other_key ++ (key ++ other_key))))) in
    hmac64_md5 key other_key ≡ xor_str (take 8 m) (drop 8 m)
hmac64_md5-md5_sum_example = hmac64_md5-md5_sum key other_key refl refl
