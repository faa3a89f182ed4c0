-- ===== src/Tests/Update.antt =====
-- The self-test, the head parser and the update session at concrete inputs.
use garagelight.Prelude.{
  take-append, sym, ap, zero, suc, ℕ, ◌+◌, ◌*◌, ◌-◌, ◌<◌, ◌≡◌, ◌≢◌, refl, ◌∙◌, Bool, true, false,
  not, [], ◌∷◌, ◌++◌, append_assoc, append-nil, some, none, arith, leb, ◌==◌, Bytes, codes, Lacks,
  all, length, length-take, take, drop, replicate, length-append, length-replicate,
}
use garagelight.Result.{Result, ok, err, ok_inj}
use garagelight.Ota.SelfTest.{Board, Report, self_test}
use garagelight.Ota.SelfTest.Verdict.{IsSteady, IsSound, self_test_lem}
use garagelight.Ota.Head.{new}
use garagelight.Ota.Head.Safety.{Inv, feed, feed-Inv, feed_ends}
use garagelight.Ota.Transport.{scan}
use garagelight.Ota.Transport.Lines.{line_text}
use garagelight.Ota.Transport.Heads.{scan-head_of, head_of, read_as, headers_text}
use garagelight.Ota.Session.{Device, Sha256, UpdateError, oversize, apply_update}
use garagelight.Ota.Session.Safe.{IsFlash, IsStreaming, IsVerified, apply_update_lem}
use garagelight.Ota.Session.Honest.{IsHonest, update_verdict, apply_update-left}

-- A board whose signals all come 3 s after its start, on a clock of milliseconds.
abbrev bench : Board ℕ
bench = record {
  sample = λ t.
      let up = leb 3_000 t in
      (
        record {
          ble_advertising = up;
          lamp_ready = up;
          wifi_associated = up;
          mqtt_connected = false;
        },
        t,
      );
  now_ms = λ t. (t, t);
  wait = λ ms t. t + ms;
}

abbrev bench_steady : IsSteady bench
bench_steady = record {
  time = λ t. t;
  sampled = λ t. omega arith;
  read_least = λ t. omega arith;
  read_most = λ t. omega arith;
  waited = λ ms t. omega arith;
}

self_test_lem_example :
    (r : Report) × (t : ℕ) × (self_test bench 121 0 ≡ some (r, t))
    × IsSound bench (bench.now_ms 0).0 (bench.now_ms 0).1 r t
self_test_lem_example = self_test_lem bench bench_steady 0

abbrev no_network : ℕ → Bool × Bool
no_network t = (false, false)

feed-Inv_example : Inv (feed new (codes "HTTP/1.1 200"))
feed-Inv_example = feed-Inv (codes "HTTP/1.1 200")

abbrev many : Bytes
many = replicate 2049 b'a'

feed_ends_example : (feed new many).terminal ≢ none
feed_ends_example = feed_ends many (omega (arith, length-replicate {A = ℕ} 2049 b'a'))

Lacks-by : (s : Bytes) → all (λ c. not (c == b'\n')) s ≡ true → Lacks b'\n' s
Lacks-by [] e = tt
Lacks-by (x ∷ s) e = ((ground (arith, e)), Lacks-by s (ground (arith, e)))

abbrev found_status : Bytes
found_status = codes "HTTP/1.1 200 OK"

abbrev found_length : Bytes
found_length = codes "Content-Length: 12"

scan-head_of_example :
    scan new (line_text found_status (headers_text (found_length ∷ []) (codes "rest")))
    ≡ read_as (head_of found_status (found_length ∷ [])) (codes "rest")
scan-head_of_example =
    scan-head_of found_status (found_length ∷ []) (codes "rest") (Lacks-by found_status refl)
      (((λ e. cc), Lacks-by found_length refl), tt) (omega arith)

-- A flash and a body in memory, and the bytes themselves in place of a digest.
record Memory : Type 0 where
  body : Bytes
  flash : Bytes
  marked : Bool

abbrev memory : Device Memory Unit Unit
memory = record {
  read = λ len m. (
    ok (length (take len m.body), take len m.body ++ replicate (len - length (take len m.body)) 0),
    record m { body = drop len m.body },
  );
  write = λ offset piece m. (ok tt, record m { flash = m.flash ++ piece });
  mark_updated = λ m. (ok tt, record m { marked = true });
}

abbrev pub bytes : Sha256 Bytes
bytes = record { new = []; update = ◌++◌; finalize = λ s. s }

take-length : (n : ℕ) (l : Bytes) → take (length (take n l)) l ≡ take n l
take-length zero l = refl
take-length (suc n) [] = refl
take-length (suc n) (x ∷ l) = ap (◌∷◌ x) (take-length n l)

drop-length : (n : ℕ) (l : Bytes) → drop n l ≡ drop (length (take n l)) l
drop-length zero l = refl
drop-length (suc n) [] = refl
drop-length (suc n) (x ∷ l) = drop-length n l

pub filled :
    (len : ℕ) (l : Bytes) → length (take len l ++ replicate (len - length (take len l)) 0) ≡ len
filled len l =
    length-append (take len l) (replicate (len - length (take len l)) 0)
    ∙ omega (arith, length-take len l, length-replicate (len - length (take len l)) zero)

pub count_sized :
    (len n k : ℕ) (a buf : Bytes)
    → length a ≡ len
    → Path (Result Unit (ℕ × Bytes)) (ok (k, a)) (ok (n, buf))
    → length buf ≡ len
count_sized len n k a buf h e = ap length (sym (ap (λ x. x.1) (ok_inj (k, a) (n, buf) e))) ∙ h

abbrev memory_flash : IsFlash memory
memory_flash = record {
  image = λ m. m.flash;
  marked = λ m. m.marked;
  read_image = λ len m. refl;
  read_marked = λ len m. refl;
  read_sized = λ len n buf m e. count_sized len n _ _ buf (filled len m.body) e;
  write_image = λ piece m m' e. sym (ap (λ r. r.1.flash) e);
  write_marked = λ offset piece m. refl;
  mark_image = λ m. refl;
  mark_marked = λ m m' e. sym (ap (λ r. r.1.marked) e);
}

abbrev pub bytes_streaming : IsStreaming bytes
bytes_streaming = record {
  update_nil = λ h. append-nil h;
  update_append = λ h a b. append_assoc h a b;
}

nothing :
    (len : ℕ) (m : Memory)
    → m.body ≡ []
    → memory.read len m ≡ (
      ok (0, take len m.body ++ replicate (len - length (take len m.body)) 0),
      record m { body = drop len m.body },
    )
nothing len m e =
    ap
      (λ n. (
        ok (n, take len m.body ++ replicate (len - length (take len m.body)) 0),
        record m { body = drop len m.body },
      ))
      empty
  where
    empty : length (take len m.body) ≡ 0
    empty = omega (arith, length-take len m.body, ap length e)

abbrev memory_honest : IsHonest memory
memory_honest = record {
  left = λ m. m.body;
  served = λ len m pos some_left. (
    length (take len m.body),
    take len m.body ++ replicate (len - length (take len m.body)) 0,
    record m { body = drop len m.body },
    refl,
    omega (arith, length-take len m.body),
    omega (arith, length-take len m.body),
    omega (arith, length-take len m.body),
    take-append (take len m.body) _ ∙ sym (take-length len m.body),
    drop-length len m.body,
  );
  ended = λ len m e. (_, record m { body = drop len m.body }, nothing len m e);
  wrote = λ offset piece m. (_, refl, refl);
  committed = λ m. (_, refl);
}

abbrev image : Bytes
image = codes "image"

abbrev fresh : Memory
fresh = record { body = image; flash = []; marked = false }

apply_update_lem_example :
    (r : Result (UpdateError Unit Unit) Unit) × (m : Memory) × (apply_update memory bytes 798_721 5
        image fresh
      ≡ some (r, m))
    × IsVerified memory bytes memory_flash bytes_streaming 5 image r m
    × (780 * 1024 < 5 → (r ≡ err (oversize 5 (780 * 1024))) × (m ≡ fresh))
apply_update_lem_example =
    apply_update_lem memory bytes memory_flash bytes_streaming 798_721 5 image fresh (omega arith)
      refl refl

apply_update-left_example :
    (m : Memory) × (apply_update memory bytes (5 + 1) 5 image fresh
      ≡ some (update_verdict memory bytes bytes_streaming memory_honest 5 image image, m))
apply_update-left_example =
    apply_update-left memory bytes bytes_streaming memory_honest 5 image fresh (omega arith)
