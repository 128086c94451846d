-- ===== src/Provider/Breaker.antt =====
-- `websearch/internal/provider/baidu/breaker.go`, and the fallback policy of `baidu/strategy.go`.
-- The map `openUntil` is a function, `none` for a key that it does not have; each call of
-- `Allow` or `Trip` reads the clock once, as `now`.
use search_x.Prelude.{
  arith, leb, ltb, ◌≢◌, not, refl, ◌==◌, ◌+◌, ◌*◌, false, if◌then◌else◌, ◌≡◌, some, true, Bool, ℕ,
  none, Option,
}
use search_x.Domain.Attempts.{TransportName, Classification}

abbrev pub minute : ℕ
minute = 60_000_000_000

-- `openUntil`
abbrev pub Breaker : Type 0
Breaker = TransportName → Option ℕ

abbrev pub new_breaker : Breaker
new_breaker = λ name. none

unfoldable pub number : TransportName → ℕ
number TransportName.unset = 0
number TransportName.desktop_http = 1
number TransportName.baidu_session_http = 2
number TransportName.mobile_http = 3
number TransportName.chromedp = 4
number TransportName.duck_duck_go_http = 5
number TransportName.bing_chromedp = 6
number TransportName.brave_chromedp = 7
number TransportName.fresh_cache = 8
number TransportName.stale_cache = 9

unfoldable pub put_until : TransportName → Option ℕ → Breaker → Breaker
unfolding number
put_until name until b other = if number other == number name then until else b other

unfoldable pub allow : ℕ → TransportName → Breaker → Bool × Breaker
unfolding put_until
allow now name b = elim (b name) [
  | none ↦ (true, b)
  | some until ↦ if not (ltb now until) then (true, put_until name none b) else (false, b)
]

unfoldable pub cooldown : Classification → Option ℕ
cooldown Classification.captcha = some (30 * minute)
cooldown Classification.rate_limited = some (5 * minute)
cooldown _ = none

unfoldable pub trip : ℕ → TransportName → Classification → Breaker → Breaker
unfolding cooldown put_until
trip now name c b = elim (cooldown c) [ none ↦ b | some d ↦ put_until name (some (now + d)) b ]

-- `ConservativeStrategyFallback.Allows`
unfoldable pub conservative_allows : Classification → Bool
conservative_allows Classification.network_error = true
conservative_allows Classification.timeout = true
conservative_allows Classification.parse_changed = true
conservative_allows _ = false

-- A transport that was tripped is refused for exactly the cool-down of the classification, and
-- what the breaker says of a transport with another number is unchanged.
pub allow-trip :
    (now later d : ℕ) (name other : TransportName) (c : Classification) (b : Breaker)
    → cooldown c ≡ some d
    → number other ≢ number name
    → ((allow later name (trip now name c b)).0 ≡ leb (now + d) later)
      × ((allow later other (trip now name c b)).0 ≡ (allow later other b).0)
unfolding allow trip put_until
allow-trip now later d name other c b h n =
    (rw (trip, h, allow) (ground arith), rw (trip, h, allow) (ground arith))

-- The classifications for which the breaker refuses a transport are none of those after which the
-- next strategy may be tried.
pub trip-conservative :
    (now : ℕ) (name : TransportName) (c : Classification) (b : Breaker)
    → conservative_allows c ≡ true
    → trip now name c b ≡ b
unfolding trip cooldown conservative_allows
trip-conservative now name Classification.network_error b h = refl
trip-conservative now name Classification.timeout b h = refl
trip-conservative now name Classification.parse_changed b h = refl
trip-conservative now name Classification.unset b h = refl
trip-conservative now name Classification.normal b h = refl
trip-conservative now name Classification.empty b h = refl
trip-conservative now name Classification.captcha b h = cc
trip-conservative now name Classification.rate_limited b h = cc
trip-conservative now name Classification.blocked b h = refl
