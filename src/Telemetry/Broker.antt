-- ===== src/Telemetry/Broker.antt =====
-- `parse_broker` of core/src/telemetry.rs reads every IPv4 address and port back from its text.
use garagelight.Prelude.{
  append_assoc, append-nil, inr, inl, ==_iff, ◌⊎◌, ℕ, ◌-◌, ◌≤◌, ◌<◌, ◌^◌, ◌≡◌, ◌≢◌, refl, ◌∙◌, sym,
  ap, Bool, true, false, [], ◌∷◌, ◌++◌, Option, none, some, arith, ◌==◌, if◌then◌else◌, Bytes,
  codes, All, All-map, All-append, IsDigit, Lacks, split, split-Lacks, split-append,
  rsplit_once-Lacks, rsplit_once-none, starts_with, check_below, check_below_lem, is_empty,
}
use garagelight.Decimal.{decimal}
use garagelight.Decimal.Print.{decimal-IsDigit, decimal-ne-nil}
use garagelight.Decimal.Parse.{parse_uint-decimal}
use garagelight.Telemetry.{octet, Ipv4, four, parse_ipv4, strip_scheme, split_port, parse_broker}

decimal-Lacks : (b n : ℕ) → (b < b'0') ⊎ (b'9' < b) → Lacks b (decimal n)
decimal-Lacks b n out = All-map (λ c d. ne c d) (decimal n) (decimal-IsDigit n)
  where
    ne : (c : ℕ) → IsDigit c → c ≢ b
    ne c d e = ground (arith, d.0, d.1, e, out)

reads_back : ℕ → Bool
unfolding octet decimal
reads_back n = elim (octet (decimal n)) [ none ↦ false | some m ↦ m == n ]

all_read_back : check_below 256 reads_back ≡ true
unfolding check_below reads_back octet decimal is_empty
all_read_back = refl

octet-decimal : (n : ℕ) → n < 256 → octet (decimal n) ≡ some n
unfolding reads_back
octet-decimal n h = go (octet (decimal n)) refl (check_below_lem 256 reads_back n all_read_back h)
  where
    go : (o : Option ℕ) → octet (decimal n) ≡ o → reads_back n ≡ true → octet (decimal n) ≡ some n
    go none q r = absurd (clash (rw (reads_back, q) at r))
      where
        clash : false ≡ true → ⊥
        clash x = cc
    go (some m) q r = q ∙ ap some ((==_iff m n).0 (rw (reads_back, q) at r))

-- The text of an address.
abbrev pub dotted : Ipv4 → Bytes
dotted ip =
    decimal ip.a ++ (b'.' ∷ (decimal ip.b ++ (b'.' ∷ (decimal ip.c ++ (b'.' ∷ decimal ip.d)))))

four-decimal :
    (ip : Ipv4)
    → ip.a < 256
    → ip.b < 256
    → ip.c < 256
    → ip.d < 256
    → four (decimal ip.a ∷ decimal ip.b ∷ decimal ip.c ∷ decimal ip.d ∷ []) ≡ some ip
unfolding four
four-decimal ip ha hb hc hd =
    rw (octet-decimal ip.a ha, octet-decimal ip.b hb, octet-decimal ip.c hc, octet-decimal ip.d hd)
      refl

split-dotted :
    (ip : Ipv4)
    → split b'.' (dotted ip) ≡ decimal ip.a ∷ decimal ip.b ∷ decimal ip.c ∷ decimal ip.d ∷ []
split-dotted ip =
    split-append b'.' (decimal ip.a) _ (no_dot ip.a)
    ∙ ap (◌∷◌ (decimal ip.a)) (
        split-append b'.' (decimal ip.b) _ (no_dot ip.b)
        ∙ ap (◌∷◌ (decimal ip.b)) (
            split-append b'.' (decimal ip.c) (decimal ip.d) (no_dot ip.c)
            ∙ ap (◌∷◌ (decimal ip.c)) (split-Lacks b'.' (decimal ip.d) (no_dot ip.d))))
  where
    no_dot : (n : ℕ) → Lacks b'.' (decimal n)
    no_dot n = decimal-Lacks b'.' n (inl (omega arith))

dotted-Lacks : (ip : Ipv4) → Lacks b':' (dotted ip)
dotted-Lacks ip =
    All-append (λ c. c ≢ b':') (decimal ip.a) _ (no_colon ip.a)
      (
        (λ e. absurd (omega (arith, e))),
        All-append (λ c. c ≢ b':') (decimal ip.b) _ (no_colon ip.b)
            (
              (λ e. absurd (omega (arith, e))),
              All-append (λ c. c ≢ b':') (decimal ip.c) _ (no_colon ip.c)
                  ((λ e. absurd (omega (arith, e))), no_colon ip.d),
            ),
      )
  where
    no_colon : (n : ℕ) → Lacks b':' (decimal n)
    no_colon n = decimal-Lacks b':' n (inr (omega arith))

-- A text with a digit in front has no scheme.
strip_scheme-digit :
    (s rest : Bytes) → s ≢ [] → All IsDigit s → strip_scheme (s ++ rest) ≡ s ++ rest
unfolding strip_scheme starts_with
strip_scheme-digit [] rest n h = absurd (n refl)
strip_scheme-digit (c ∷ s) rest n (d, h) = ground (arith, d.0, d.1)

strip_scheme-mqtt : (s : Bytes) → strip_scheme (codes "mqtt://" ++ s) ≡ s
unfolding strip_scheme starts_with
strip_scheme-mqtt s = refl

-- The text of a broker: a scheme or not, and a port or not.
abbrev pub broker_text : Bool → Ipv4 → Option ℕ → Bytes
broker_text scheme ip port =
    (if scheme then codes "mqtt://" else [])
    ++ elim port [ none ↦ dotted ip | some n ↦ dotted ip ++ (b':' ∷ decimal n) ]

abbrev pub port_or_default : Option ℕ → ℕ
port_or_default none = 1883
port_or_default (some n) = n

split_port-text :
    (ip : Ipv4) (port : Option ℕ)
    → port_or_default port < 2 ^ 16
    → split_port (elim port [ none ↦ dotted ip | some n ↦ dotted ip ++ (b':' ∷ decimal n) ])
      ≡ some (dotted ip, port_or_default port)
unfolding split_port
split_port-text ip none h =
    rw (split_port, rsplit_once-none b':' (dotted ip) (dotted-Lacks ip)) refl
split_port-text ip (some n) h =
    rw
      (
        split_port,
        rsplit_once-Lacks b':' (dotted ip) (decimal n) (decimal-Lacks b':' n (inr (omega arith))),
        parse_uint-decimal (2 ^ 16 - 1) n (omega arith),
      )
      refl

strip_scheme-dotted :
    (ip : Ipv4) (rest : Bytes) → strip_scheme (dotted ip ++ rest) ≡ dotted ip ++ rest
strip_scheme-dotted ip rest =
    ap strip_scheme (append_assoc (decimal ip.a) behind rest)
    ∙ strip_scheme-digit (decimal ip.a) (behind ++ rest) (decimal-ne-nil ip.a)
        (decimal-IsDigit ip.a)
    ∙ sym (append_assoc (decimal ip.a) behind rest)
  where
    behind : Bytes
    behind = b'.' ∷ (decimal ip.b ++ (b'.' ∷ (decimal ip.c ++ (b'.' ∷ decimal ip.d))))

strip_scheme-text :
    (scheme : Bool) (ip : Ipv4) (port : Option ℕ)
    → strip_scheme (broker_text scheme ip port)
      ≡ elim port [ none ↦ dotted ip | some n ↦ dotted ip ++ (b':' ∷ decimal n) ]
strip_scheme-text true ip port = strip_scheme-mqtt _
strip_scheme-text false ip none =
    ap strip_scheme (sym (append-nil (dotted ip)))
    ∙ strip_scheme-dotted ip []
    ∙ append-nil (dotted ip)
strip_scheme-text false ip (some n) = strip_scheme-dotted ip (b':' ∷ decimal n)

-- A broker is read back from its text, with or without the scheme, at the port given or at 1883:
-- for every IPv4 address, and every port that is not 0 and fits 16 bits.
pub parse_broker-text :
    (scheme : Bool) (ip : Ipv4) (port : Option ℕ)
    → ip.a < 256
    → ip.b < 256
    → ip.c < 256
    → ip.d < 256
    → 1 ≤ port_or_default port
    → port_or_default port < 2 ^ 16
    → parse_broker (broker_text scheme ip port) ≡ some (ip, port_or_default port)
unfolding parse_broker
parse_broker-text scheme ip port ha hb hc hd pos fits =
    rw
      (
        parse_broker,
        strip_scheme-text scheme ip port,
        split_port-text ip port fits,
        not_zero,
        address,
      )
      refl
  where
    not_zero : (port_or_default port == 0) ≡ false
    not_zero = ground arith

    address : parse_ipv4 (dotted ip) ≡ some ip
    address = unfold parse_ipv4 in ap four (split-dotted ip) ∙ four-decimal ip ha hb hc hd
