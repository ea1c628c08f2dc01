-- ===== src/Store/Users/Catalogue.antt =====
-- internal/store/store.go: the equipment that `MemStore` is seeded with. Texts are their UTF-8 bytes.
use lurkspire.Prelude.{ℕ, List, [], ◌∷◌}
use lurkspire.Protocol.Battle.{F32}

abbrev pub Text : Type 0
Text = List ℕ

pub record Equipment : Type 0 where
  pub id : ℕ
  pub name : Text
  pub description : Text
  pub effect_type : Text
  pub effect_value : F32

-- "block_max"
abbrev pub block_max_effect : Text
block_max_effect = 98 ∷ 108 ∷ 111 ∷ 99 ∷ 107 ∷ 95 ∷ 109 ∷ 97 ∷ 120 ∷ []

abbrev equipment : ℕ → Text → Text → Text → F32 → ℕ × Equipment
equipment id name description effect_type effect_value = (
  id,
  record {
    id = id;
    name = name;
    description = description;
    effect_type = effect_type;
    effect_value = effect_value;
  },
)

abbrev pub catalogue : List (ℕ × Equipment)
catalogue =
    equipment 0 (230 ∷ 151 ∷ 160 ∷ [])
      (228 ∷ 184 ∷ 141 ∷ 232 ∷ 163 ∷ 133 ∷ 229 ∷ 164 ∷ 135 ∷ 228 ∷ 187 ∷ 187 ∷ 228 ∷ 189 ∷ 149 ∷ 231
        ∷ 137 ∷ 169 ∷ 229 ∷ 147 ∷ 129 ∷ [])
      ([]) 0
    ∷ equipment 1 (232 ∷ 189 ∷ 187 ∷ 231 ∷ 155 ∷ 136 ∷ 228 ∷ 185 ∷ 139 ∷ 233 ∷ 157 ∷ 180 ∷ [])
        (228 ∷ 186 ∷ 140 ∷ 230 ∷ 174 ∷ 181 ∷ 232 ∷ 183 ∷ 179 ∷ 233 ∷ 171 ∷ 152 ∷ 229 ∷ 186 ∷ 166
          ∷ 32 ∷ 43 ∷ 48 ∷ 46 ∷ 51 ∷ 109 ∷ [])
        (97 ∷ 105 ∷ 114 ∷ 95 ∷ 106 ∷ 117 ∷ 109 ∷ 112 ∷ []) 0x3e99999a
    ∷ equipment 2 (231 ∷ 150 ∷ 190 ∷ 233 ∷ 163 ∷ 142 ∷ 230 ∷ 138 ∷ 164 ∷ 232 ∷ 133 ∷ 149 ∷ [])
        (232 ∷ 183 ∷ 145 ∷ 230 ∷ 173 ∷ 165 ∷ 233 ∷ 128 ∷ 159 ∷ 229 ∷ 186 ∷ 166 ∷ 32 ∷ 43 ∷ 49 ∷ [])
        (114 ∷ 117 ∷ 110 ∷ 95 ∷ 115 ∷ 112 ∷ 101 ∷ 101 ∷ 100 ∷ []) 0x3f800000
    ∷ equipment 3 (230 ∷ 137 ∷ 169 ∷ 229 ∷ 174 ∷ 185 ∷ 229 ∷ 188 ∷ 185 ∷ 229 ∷ 140 ∷ 163 ∷ [])
        (229 ∷ 188 ∷ 185 ∷ 229 ∷ 164 ∷ 185 ∷ 229 ∷ 173 ∷ 144 ∷ 229 ∷ 188 ∷ 185 ∷ 32 ∷ 43 ∷ 52 ∷ [])
        (109 ∷ 97 ∷ 103 ∷ 97 ∷ 122 ∷ 105 ∷ 110 ∷ 101 ∷ []) 0x40800000
    ∷ equipment 4 (229 ∷ 174 ∷ 136 ∷ 230 ∷ 138 ∷ 164 ∷ 229 ∷ 190 ∷ 189 ∷ 231 ∷ 171 ∷ 160 ∷ [])
        (230 ∷ 160 ∷ 188 ∷ 230 ∷ 140 ∷ 161 ∷ 230 ∷ 157 ∷ 161 ∷ 228 ∷ 184 ∷ 138 ∷ 233 ∷ 153 ∷ 144
          ∷ 32 ∷ 43 ∷ 49 ∷ 48 ∷ [])
        (98 ∷ 108 ∷ 111 ∷ 99 ∷ 107 ∷ 95 ∷ 109 ∷ 97 ∷ 120 ∷ []) 0x41200000
    ∷ []
