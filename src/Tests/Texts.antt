-- ===== src/Tests/Texts.antt =====
-- The texts of an update at concrete inputs.
use garagelight.Prelude.{
  split, rsplit_once, bytes_eq, is_empty, ℕ, ◌+◌, ◌*◌, ◌/◌, ◌^◌, ◌<◌, ◌≡◌, ◌≢◌, ◌↔◌, refl, Bool,
  true, false, [], ◌∷◌, ◌++◌, some, arith, ltb, Bytes, codes, IsByte, IsDigit, All, all, length,
  take, drop, replicate,
}
use garagelight.Result.{ok}
use garagelight.Decimal.{value, parse_digits, parse_uint}
use garagelight.Ota.Text.{trim_ascii, parse_version, parse_sha256_hex}
use garagelight.Ota.Text.Version.{parse_version_iff}
use garagelight.Ota.Text.Sha.{hex, parse_sha256_hex_iff}
use garagelight.Ota.Base64.Encode.{base64-encode}
use garagelight.Ota.Base64.Groups.{encode}
use garagelight.Ota.Base64.Decode.{decode, decode-base64}
use garagelight.Ota.Url.{
  parse_url, split_scheme, split_path, parse_scheme, parse_port, host_and_port, checked_host,
  parse_authority, non_empty, push_segments, valid_segment,
}
use garagelight.Ota.Url.Sound.{IsName-test, join, Parts, parse_url-ok}
use garagelight.Ota.Url.RoundTrip.{url_text, parse_url-text}

All-by :
    {P : ℕ → Type 0} (test : ℕ → Bool)
    → ((x : ℕ) → test x ≡ true → P x)
    → (s : Bytes) → all test s ≡ true
    → All P s
All-by test f [] e = tt
All-by test f (x ∷ s) e = (f x (ground (arith, e)), All-by test f s (ground (arith, e)))

bytes_by : (s : Bytes) → all (λ c. ltb c 256) s ≡ true → All IsByte s
bytes_by s e = All-by (λ c. ltb c 256) (λ x h. ground arith) s e

parse_version_iff_example : (parse_version (codes "42\n") ≡ some 42) ↔ (
    (trim_ascii (codes "42\n") ≢ [])
    × All IsDigit (trim_ascii (codes "42\n"))
    × (42 ≡ value 0 (trim_ascii (codes "42\n")))
    × (42 < 2 ^ 32))
parse_version_iff_example = parse_version_iff (codes "42\n") 42

abbrev zeros : Bytes
zeros = replicate 32 0

parse_sha256_hex_iff_example :
    (parse_sha256_hex (replicate 64 b'0') ≡ some (zeros))
    ↔ ((length zeros ≡ 32) × All IsByte (zeros) × (trim_ascii (replicate 64 b'0') ≡ hex (zeros)))
parse_sha256_hex_iff_example = parse_sha256_hex_iff (replicate 64 b'0') (zeros)

decode-base64_example :
    decode (
      take
        ((length (codes "ab") + 2) / 3 * 4)
        (encode (codes "ab") ++ drop ((length (codes "ab") + 2) / 3 * 4) (codes "......")))
    ≡ some (codes "ab")
decode-base64_example =
    decode-base64 (codes "ab") (codes "......") (bytes_by (codes "ab") refl)
      (base64-encode (codes "ab") (codes "......") (bytes_by (codes "ab") refl))

abbrev site : Bytes
site = codes "http://10.0.0.2:8070/fw"

parse_url-ok_example :
    Parts
      (record { tls = false; host = codes "10.0.0.2"; port = 8070; path = codes "/fw/light" })
      (codes "light")
unfolding parse_url split_scheme split_path parse_scheme parse_port host_and_port checked_host
    parse_authority non_empty push_segments valid_segment parse_digits parse_uint is_empty bytes_eq
    rsplit_once split
parse_url-ok_example = parse_url-ok site (codes "light") _ refl

parse_url-text_example :
    parse_url (url_text true (codes "fw.lan") 443 (codes "a" ∷ [])) (codes "light")
    ≡ ok (record {
      tls = true;
      host = codes "fw.lan";
      port = 443;
      path = join (codes "a" ∷ codes "light" ∷ []);
    })
unfolding is_empty
parse_url-text_example =
    parse_url-text true (codes "fw.lan") 443 (codes "a" ∷ []) (codes "light")
      ((IsName-test (codes "fw.lan")).0 refl) (omega arith) (omega arith)
      ((IsName-test (codes "a")).0 refl, tt) ((IsName-test (codes "light")).0 refl) (omega arith)
