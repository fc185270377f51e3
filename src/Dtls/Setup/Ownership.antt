-- ===== src/Dtls/Setup/Ownership.antt =====
-- What `init` makes is freed or passed on, by the end of the destructor.
use cpp_meet.Common.{ℕ, ◌+◌, ◌≡◌, refl, Bool, true, false, List, [], ◌∷◌, ◌++◌, ◌==◌, arith}
use cpp_meet.Dtls.Setup.{
  Object, ctx, ssl, rbio, wbio, pkey, rsa, x509, Call, makes, frees, gives, Outcomes, init,
  init_ssl, destroy, generate_self_signed_cert,
}

abbrev number : Object → ℕ
number ctx = 0
number ssl = 1
number rbio = 2
number wbio = 3
number pkey = 4
number rsa = 5
number x509 = 6

abbrev one_if : Bool → ℕ
one_if true = 1
one_if false = 0

abbrev made_here : Object → Call → ℕ
made_here x (makes y) = one_if (number x == number y)
made_here x _ = 0

abbrev released_here : Object → Call → ℕ
released_here x (frees y) = one_if (number x == number y)
released_here x (gives y) = one_if (number x == number y)
released_here x _ = 0

abbrev pub times_made : Object → List Call → ℕ
times_made x [] = 0
times_made x (c ∷ cs) = made_here x c + times_made x cs

abbrev pub times_released : Object → List Call → ℕ
times_released x [] = 0
times_released x (c ∷ cs) = released_here x c + times_released x cs

-- The calls of a transport's life.
abbrev pub lifetime : Bool → Outcomes → List Call
lifetime is_server o = let (done, (handles, calls)) = init is_server o in calls ++ destroy handles

abbrev outcomes : Bool → Bool → Bool → Bool → Bool → Bool → Bool → Outcomes
outcomes c p r x s rb wb = record {
  ctx_made = c;
  pkey_made = p;
  rsa_made = r;
  x509_made = x;
  ssl_made = s;
  rbio_made = rb;
  wbio_made = wb;
}

abbrev IsBalanced : Object → Bool → Outcomes → Type 0
IsBalanced x is_server o =
    times_made x (lifetime is_server o) ≡ times_released x (lifetime is_server o)

balanced :
    (x : Object) (is_server c p r t s rb wb : Bool)
    → rb ≡ wb
    → IsBalanced x is_server (outcomes c p r t s rb wb)
unfolding init init_ssl destroy generate_self_signed_cert
balanced x is_server false p r t s rb wb h = refl
balanced x is_server true false r t s rb wb h = omega arith
balanced x is_server true true false t s rb wb h = omega arith
balanced x is_server true true true false s rb wb h = omega arith
balanced x is_server true true true true false rb wb h = omega arith
balanced x is_server true true true true true false false h = omega arith
balanced x is_server true true true true true false true h = absurd cc
balanced x is_server true true true true true true false h = absurd cc
balanced x true true true true true true true true h = omega arith
balanced x false true true true true true true true h = omega arith

-- If both BIOs are made or neither, then through `init`, whatever else fails in it, and the destructor every
-- object of OpenSSL is freed or passed on as often as it was made.
pub lifetime_balanced :
    (is_server : Bool) (o : Outcomes) (x : Object)
    → o.rbio_made ≡ o.wbio_made
    → times_made x (lifetime is_server o) ≡ times_released x (lifetime is_server o)
lifetime_balanced is_server o x h =
    balanced x is_server o.ctx_made o.pkey_made o.rsa_made o.x509_made o.ssl_made o.rbio_made
      o.wbio_made h
