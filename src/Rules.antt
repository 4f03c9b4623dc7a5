-- ===== src/Rules.antt =====
-- gowui/rules.py: the rule sets. Komi is counted in half points, which every constant of the
-- source is a multiple of.
use gowui.Base.{
  ℕ, Bool, true, false, List, [], ◌∷◌, map, Text, codes, lower, strip, Result, or_raise, lookup,
  text_eq, equal,
}

pub data Ko : Type 0 where
  simple_ko positional_superko situational_superko : Ko

pub data Scoring : Type 0 where
  area territory : Scoring

pub record RuleSet : Type 0 where
  pub name : Text
  pub katago : Text
  pub ko : Ko
  pub suicide : Bool
  pub default_komi : ℕ
  pub scoring : Scoring

pub data RulesError : Type 0 where
  unknown_rule_set : Text → RulesError

abbrev rule_set : Text → Ko → Bool → ℕ → Scoring → RuleSet
rule_set name ko suicide komi scoring = record {
  name = name;
  katago = name;
  ko = ko;
  suicide = suicide;
  default_komi = komi;
  scoring = scoring;
}

abbrev pub rule_sets : List RuleSet
rule_sets =
    rule_set (codes "japanese") simple_ko false 13 territory
    ∷ rule_set (codes "korean") simple_ko false 13 territory
    ∷ rule_set (codes "chinese") positional_superko false 15 area
    ∷ rule_set (codes "aga") situational_superko false 15 area
    ∷ rule_set (codes "new-zealand") situational_superko true 14 area
    ∷ rule_set (codes "tromp-taylor") positional_superko true 15 area
    ∷ []

abbrev pub default_rules : Text
default_rules = codes "japanese"

abbrev pub handicap_komi : ℕ
handicap_komi = 1

unfoldable pub get_rules : Text → Result RulesError RuleSet
unfolding lower strip lookup equal
get_rules name =
    or_raise (lookup (lower (strip name)) (map (λ (rs : RuleSet). (rs.name, rs)) rule_sets))
      (unknown_rule_set name)
