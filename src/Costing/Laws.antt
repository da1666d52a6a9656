-- ===== src/Costing/Laws.antt =====
-- Costs of sums (observability/costing.py).
use deskfleet_ticketwarden.Base.{◌≡◌, String, arith}
use deskfleet_ticketwarden.Costing.{Usage, add, estimate_cost, price_for}

-- A usage whose cost is the one of its tokens.
abbrev pub IsPriced : (String → String) → String → String → Usage → Type 0
IsPriced lower model provider u =
    u.cost_usd ≡ estimate_cost lower u.prompt_tokens u.completion_tokens model provider

-- `Usage.add` keeps costs right: if each of two usages of one model costs what its tokens cost, so
-- does their sum, without loss to rounding.
pub add-IsPriced :
    (lower : String → String) (model provider : String) (a b : Usage)
    → IsPriced lower model provider a
    → IsPriced lower model provider b
    → IsPriced lower model provider (add a b)
unfolding estimate_cost add
add-IsPriced lower model provider a b ha hb =
    let price = price_for lower model provider in rw (ha, hb) (grind arith)
