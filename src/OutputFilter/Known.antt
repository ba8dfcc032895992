-- ===== src/OutputFilter/Known.antt =====
-- The codes in the output filter's list.
use realityai_agents.Prelude.{String, ◌≡◌, true, contains}
use realityai_agents.OutputFilter.{reason_code_terms}

-- The code is one of the list's terms.
pub record IsKnown (code : String) : Type 0 where
  pub listed : contains code reason_code_terms ≡ true

-- For a code that is written out, the test computes.
pub known : (code : String) → contains code reason_code_terms ≡ true → IsKnown code
known code h = record { listed = h }
