-- ===== src/Provider.antt =====
-- src/providers/provider.rs: a configured provider and what its answers cost. A provider's answers
-- are not modelled here: a request's run takes them as an argument.
use rustygate.Prelude.{ℕ, String, Bool}
use rustygate.Float.{Float}

pub record ChatProvider : Type 0 where
  pub name : String
  pub model : String
  pub supports_model : String → Bool

module _ (fl : Float) where
  open fl use {F64, add, mul, div, from_nat}

  pub record ProviderPricing : Type 0 where
    pub cost_per_1k_input_tokens : F64
    pub cost_per_1k_output_tokens : F64

  pub record CostEstimate : Type 0 where
    pub input_cost_usd : F64
    pub output_cost_usd : F64
    pub total_cost_usd : F64

  unfoldable pub estimate_cost : ProviderPricing → ℕ → ℕ → CostEstimate
  estimate_cost p prompt_tokens completion_tokens =
      let input = mul (div (from_nat prompt_tokens) (from_nat 1_000)) p.cost_per_1k_input_tokens in
      let output =
        mul (div (from_nat completion_tokens) (from_nat 1_000)) p.cost_per_1k_output_tokens in
      record { input_cost_usd = input; output_cost_usd = output; total_cost_usd = add input output }

  pub record ProviderEntry : Type 0 where
    pub priority : ℕ  -- u32
    pub provider : ChatProvider
    pub pricing : ProviderPricing
