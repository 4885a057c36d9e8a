-- ===== src/IntentRisk/Rules.antt =====
-- risk/exchange_rules.py: the rules of a symbol, from a cache that forgets them after a while.
-- `fetch` is the answer of the market data service at a time, `none` an exception of any kind. A tick
-- and a step are not negative. Times are whole numbers of a unit, and so are the rules' amounts.
use meva_beta_alpha_codex.Base.{
  ℕ, zero, suc, ◌+◌, Bool, Option, none, some, if◌then◌else◌, ltb, number_key,
}
use meva_beta_alpha_codex.Base.Int.{ℤ, pos, leb_ℤ}
use meva_beta_alpha_codex.Base.Dict.{Dict, lookup, insert}

-- What the provider reads of the rules that the service gives.
pub record MarketRules : Type 0 where
  pub min_total : Option ℤ
  pub tick_size : Option ℕ
  pub step_size : Option ℕ

pub record ExchangeRules : Type 0 where
  pub min_notional : ℤ
  pub price_tick : ℕ
  pub qty_step : ℕ

pub record RulesProvider : Type 0 where
  pub cache_ttl_seconds : ℕ
  pub allow_default_fallback : Bool
  pub fetch : (symbol now : ℕ) → Option MarketRules

abbrev pub RulesCache : Type 0
RulesCache = Dict ℕ (ℕ × ExchangeRules)

abbrev pub default_rules : ExchangeRules
default_rules = record { min_notional = pos 100000000000000000; price_tick = 1000000; qty_step = 1 }

-- `value or default` of a number.
abbrev pub or_default : Option ℕ → ℕ → ℕ
or_default none default = default
or_default (some zero) default = default
or_default (some (suc n)) default = suc n

abbrev pub or_default_ℤ : Option ℤ → ℤ → ℤ
or_default_ℤ none default = default
or_default_ℤ (some x) default =
    if leb_ℤ x (pos 0) then (if leb_ℤ (pos 0) x then default else x) else x

unfoldable pub exchange_rules : MarketRules → ExchangeRules
exchange_rules m = record {
  min_notional = or_default_ℤ m.min_total default_rules.min_notional;
  price_tick = or_default m.tick_size default_rules.price_tick;
  qty_step = or_default m.step_size default_rules.qty_step;
}

-- The rules that were fetched and are not too old.
abbrev fresh_rules : RulesProvider → (now : ℕ) → Option (ℕ × ExchangeRules) → Option ExchangeRules
fresh_rules p now none = none
fresh_rules p now (some (fetched_at, rules)) =
    if ltb now (fetched_at + p.cache_ttl_seconds) then some rules else none

-- The `try` block and its handler; `none` is `ExchangeRulesUnavailableError`.
abbrev fetched :
    RulesProvider
    → (symbol now : ℕ) → RulesCache
    → Option MarketRules
    → Option ExchangeRules × RulesCache
fetched p symbol now cache (some m) =
    (some (exchange_rules m), insert symbol (now, exchange_rules m) cache)
fetched p symbol now cache none =
    if p.allow_default_fallback
    then (some default_rules, insert symbol (now, default_rules) cache)
    else (none, cache)

abbrev cached_or_fetched :
    RulesProvider
    → (symbol now : ℕ) → RulesCache
    → Option ExchangeRules
    → Option ExchangeRules × RulesCache
cached_or_fetched p symbol now cache (some rules) = (some rules, cache)
cached_or_fetched p symbol now cache none = fetched p symbol now cache (p.fetch symbol now)

unfoldable pub get_rules :
    RulesProvider → (symbol now : ℕ) → RulesCache → Option ExchangeRules × RulesCache
get_rules p symbol now cache =
    cached_or_fetched p symbol now cache (fresh_rules p now (lookup symbol cache))
