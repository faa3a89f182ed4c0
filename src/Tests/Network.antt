-- ===== src/Tests/Network.antt =====
-- The exchange and the whole check, over a network and a flash in memory.
use garagelight.Prelude.{
  List, ◌∷◌, ℕ, ◌*◌, ◌-◌, ◌≤◌, ◌<◌, ◌≡◌, refl, sym, ap, Bool, true, false, [], ◌++◌, some, none,
  arith, Bytes, codes, length, length-take, take, drop, replicate,
}
use garagelight.Result.{Result, ok, ok_inj}
use garagelight.Ota.Failure.{FetchError, OtaError}
use garagelight.Ota.Link.{Net, Timed, answered, get, read_small}
use garagelight.Ota.Link.Receive.{IsSized, Received, get_lem}
use garagelight.Ota.Check.{Config, Updater, Checked, check_and_update}
use garagelight.Ota.Check.Board.{IsBoard, Kept}
use garagelight.Ota.Check.Body.{read_small_lem}
use garagelight.Ota.Check.Safe.{IsSafe, check_and_update_lem}
use garagelight.Tests.Update.{filled, count_sized, bytes, bytes_streaming}

-- What the server still sends on this connection, its answers on the later ones, and the flash.
record Bench : Type 0 where
  later : List Bytes
  source : Bytes
  flash : Bytes
  marked : Bool

abbrev first_of : List Bytes → Bytes
first_of [] = []
first_of (a ∷ _) = a

abbrev others_of : List Bytes → List Bytes
others_of [] = []
others_of (_ ∷ l) = l

abbrev wire : Net Bench
wire = record {
  ipv4 = λ host. some 1;
  dns_query = λ host b. (answered (ok none), b);
  connect = λ ip port b.
      (answered (ok tt), record b { source = first_of b.later; later = others_of b.later });
  open_tls = λ host b. (answered (ok tt), b);
  write_all = λ tls text b. (answered (ok tt), b);
  flush = λ tls b. (answered (ok tt), b);
  read = λ tls len b. (
    answered (
        ok (
          length (take len b.source),
          take len b.source ++ replicate (len - length (take len b.source)) 0,
        )),
    record b { source = drop len b.source },
  );
}

answered_inj :
    (r s : Result Unit (ℕ × Bytes))
    → Path (Timed (Result Unit (ℕ × Bytes))) (answered r) (answered s)
    → r ≡ s
answered_inj r s e = cc

count_le :
    (len n k : ℕ) (a buf : Bytes)
    → k ≤ len
    → Path (Result Unit (ℕ × Bytes)) (ok (k, a)) (ok (n, buf))
    → n ≤ len
count_le len n k a buf h e = omega (arith, h, ap (λ x. x.0) (ok_inj (k, a) (n, buf) e))

abbrev blank : Bench
blank = record { later = []; source = codes "HTTP/1.0 404 No\r\n\r\n"; flash = []; marked = false }

abbrev enough : 780 * 1024 < 798_721
enough = omega arith

abbrev wire_sized : IsSized wire
wire_sized = record {
  count = λ tls len n buf b e.
      count_le len n _ _ buf (omega (arith, length-take len b.source)) (answered_inj _ _ e);
  size = λ tls len n buf b e. count_sized len n _ _ buf (filled len b.source) (answered_inj _ _ e);
}

get_lem_example :
    Received wire wire_sized (get wire 2049 false (codes "GET / HTTP/1.0\r\n\r\n") blank)
get_lem_example =
    get_lem wire wire_sized 2049 false (codes "GET / HTTP/1.0\r\n\r\n") blank (omega arith)

abbrev chip : Updater Bench
chip = record {
  write = λ offset piece b. (ok tt, record b { flash = b.flash ++ piece });
  mark_updated = λ b. (ok tt, record b { marked = true });
}

abbrev board : IsBoard wire chip
board = record {
  image = λ b. b.flash;
  marked = λ b. b.marked;
  sized = wire_sized;
  dns_keeps = λ host b. (refl, refl);
  connect_keeps = λ ip port b. (refl, refl);
  open_tls_keeps = λ host b. (refl, refl);
  write_all_keeps = λ tls text b. (refl, refl);
  flush_keeps = λ tls b. (refl, refl);
  read_keeps = λ tls len b. (refl, refl);
  write_image = λ piece b b' e. sym (ap (λ r. r.1.flash) e);
  write_marked = λ offset piece b. refl;
  mark_image = λ b. refl;
  mark_marked = λ b b' e. sym (ap (λ r. r.1.marked) e);
}

read_small_lem_example :
    (r : Result FetchError Bytes) × (b : Bench) × (read_small wire 65 false (codes "4") 2 64 blank
      ≡ some (r, b))
    × Kept board blank b
    × ((s : Bytes) → r ≡ ok s → length s ≤ 64)
read_small_lem_example = read_small_lem board 65 false (codes "4") 2 64 blank (omega arith)

abbrev image : Bytes
image = replicate 32 b'A'

-- A server with version 4: its number, the digest of its image, and the image.
abbrev stocked : Bench
stocked = record {
  later =
      codes "HTTP/1.1 200 OK\r\nContent-Length: 1\r\n\r\n4"
      ∷ (codes "HTTP/1.1 200 OK\r\nContent-Length: 64\r\n\r\n"
          ++ codes "4141414141414141414141414141414141414141414141414141414141414141")
      ∷ (codes "HTTP/1.1 200 OK\r\nContent-Length: 32\r\n\r\n" ++ image)
      ∷ [];
  source = [];
  flash = [];
  marked = false;
}

abbrev settings : Config
settings = record {
  version = 3;
  ota_url = codes "http://10.0.0.2:8070/fw";
  ota_project = codes "light";
  ota_user = codes "pi";
  ota_password = codes "co";
}

check_and_update_lem_example :
    (r : Result OtaError Checked) × (b : Bench) × (check_and_update wire chip bytes settings 798_721
        stocked
      ≡ some (r, b))
    × IsSafe board bytes bytes_streaming settings 798_721 enough stocked r b
check_and_update_lem_example =
    check_and_update_lem board bytes bytes_streaming settings 798_721 enough stocked refl refl
