-- ===== src/Http/Package/Samples.antt =====
-- ec_http.h: two requests that the parser accepts.
use eclib.Common.{
  ℕ, ◌≡◌, ◌≢◌, ◌≤◌, refl, List, [], ◌∷◌, ◌++◌, All, Bool, true, false, ◌==◌, if◌then◌else◌, leb,
  length, arith, inl, inr,
}
use eclib.Common.Texts.{codes}
use eclib.Http.{is_method, is_version, ieq, rtrim, keep_first, number, max_line}
use eclib.Http.Package.{Package}
use eclib.Http.Package.Lines.{IsTrimmed, crlf}
use eclib.Http.Package.Heads.{IsItem, item_line}
use eclib.Http.Package.Roundtrip.{IsPackage}

abbrev lacks : ℕ → List ℕ → Bool
lacks d [] = true
lacks d (c ∷ s) = if c == d then false else lacks d s

not_first : (b x : Bool) → (if b then false else x) ≡ true → (b ≡ false) × (x ≡ true)
not_first true x h = absurd cc
not_first false x h = (refl, h)

lacks_lem : (d : ℕ) (s : List ℕ) → lacks d s ≡ true → All (λ c. c ≢ d) s
lacks_lem d [] h = tt
lacks_lem d (c ∷ s) h =
    let (other, rest) = not_first (c == d) (lacks d s) h in
    ((λ same. ground arith), lacks_lem d s rest)

within : (n m : ℕ) → leb n m ≡ true → n ≤ m
within n m h = ground arith

good :
    (key val : List ℕ)
    → IsTrimmed key
    → IsTrimmed val
    → lacks 58 key ≡ true
    → lacks 13 (item_line (record { key = key; val = val })) ≡ true
    → leb (length (item_line (record { key = key; val = val }) ++ crlf)) max_line ≡ true
    → IsItem (record { key = key; val = val })
good key val trimmed trimmed_val colon return small = record {
  key = trimmed;
  no_colon = lacks_lem 58 key colon;
  val = trimmed_val;
  no_return = lacks_lem 13 (item_line (record { key = key; val = val })) return;
  short = within _ _ small;
}

-- A request with two items and a body of two bytes.
abbrev pub post : Package
post = record {
  req = record { method = codes "POST"; url = codes "/a"; ver = codes "HTTP/1.1" };
  head =
      record { key = codes "Host"; val = codes "b c" }
      ∷ record { key = codes "content-length"; val = codes "2" }
      ∷ [];
  body = codes "hi";
}

pub post-IsPackage : IsPackage post.req post.head 2
unfolding is_method is_version ieq rtrim keep_first number
post-IsPackage = record {
  request = record {
    method = ((λ e. cc), (refl, (refl, (refl, (refl, tt)))));
    url = ((λ e. cc), (refl, (refl, tt)));
    ver = ((λ e. cc), (refl, (refl, (refl, (refl, (refl, (refl, (refl, (refl, tt)))))))));
    known = refl;
    version = refl;
  };
  short = omega arith;
  items = (
    good (codes "Host") (codes "b c") (refl, refl) (refl, refl) refl refl refl,
    (good (codes "content-length") (codes "2") (refl, refl) (refl, refl) refl refl refl, tt),
  );
  few = omega arith;
  announced = inl (
    refl,
    inr (
      refl,
      (
        2,
        record { digits = (refl, tt); some_digit = λ e. cc; short = omega arith; value = refl },
        omega arith,
        refl,
      ),
    ),
  );
}

-- A request for an upgrade.
abbrev pub upgrade : Package
upgrade = record {
  req = record { method = codes "GET"; url = codes "/"; ver = codes "HTTP/1.1" };
  head =
      record { key = codes "Connection"; val = codes "keep-alive, Upgrade" }
      ∷ record { key = codes "Upgrade"; val = codes "websocket" }
      ∷ record { key = codes "Sec-WebSocket-Key"; val = codes "abc=" }
      ∷ record { key = codes "Sec-WebSocket-Version"; val = codes "13" }
      ∷ record { key = codes "Sec-WebSocket-Extensions"; val = codes "foo, permessage-deflate" }
      ∷ [];
  body = [];
}

pub upgrade-IsPackage : IsPackage upgrade.req upgrade.head 0
unfolding is_method is_version ieq rtrim keep_first
upgrade-IsPackage = record {
  request = record {
    method = ((λ e. cc), (refl, (refl, (refl, tt))));
    url = ((λ e. cc), (refl, tt));
    ver = ((λ e. cc), (refl, (refl, (refl, (refl, (refl, (refl, (refl, (refl, tt)))))))));
    known = refl;
    version = refl;
  };
  short = omega arith;
  items = (
    good (codes "Connection") (codes "keep-alive, Upgrade") (refl, refl) (refl, refl) refl refl
        refl,
    (
      good (codes "Upgrade") (codes "websocket") (refl, refl) (refl, refl) refl refl refl,
      (
        good (codes "Sec-WebSocket-Key") (codes "abc=") (refl, refl) (refl, refl) refl refl refl,
        (
          good (codes "Sec-WebSocket-Version") (codes "13") (refl, refl) (refl, refl) refl refl
              refl,
          (
            good (codes "Sec-WebSocket-Extensions") (codes "foo, permessage-deflate") (refl, refl)
                (refl, refl) refl refl refl,
            tt,
          ),
        ),
      ),
    ),
  );
  few = omega arith;
  announced = inl (refl, inl (refl, inl (refl, inl (refl, inl (refl, refl)))));
}
