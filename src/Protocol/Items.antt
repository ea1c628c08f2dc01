-- ===== src/Protocol/Items.antt =====
-- internal/protocol/lobby.go, `BagItems`: the equipment that the client is shown when the store has
-- none. Texts are their UTF-8 bytes.
use lurkspire.Prelude.{ℕ, List, [], ◌∷◌}
use lurkspire.Protocol.Lobby.{BagItem}

abbrev item : ℕ → List ℕ → List ℕ → BagItem
item id name desc = record { id = id; name = name; desc = desc }

abbrev pub bag_items : List BagItem
bag_items =
    item 0 (230 ∷ 151 ∷ 160 ∷ []) (228 ∷ 184 ∷ 141 ∷ 232 ∷ 163 ∷ 133 ∷ 229 ∷ 164 ∷ 135 ∷ [])
    ∷ item 1 (232 ∷ 189 ∷ 187 ∷ 231 ∷ 155 ∷ 136 ∷ 228 ∷ 185 ∷ 139 ∷ 233 ∷ 157 ∷ 180 ∷ []) (
        228 ∷ 186 ∷ 140 ∷ 230 ∷ 174 ∷ 181 ∷ 232 ∷ 183 ∷ 179 ∷ 233 ∷ 171 ∷ 152 ∷ 229 ∷ 186 ∷ 166 ∷ 32
        ∷ 43 ∷ 48 ∷ 46 ∷ 51 ∷ 109 ∷ [])
    ∷ item 2 (231 ∷ 150 ∷ 190 ∷ 233 ∷ 163 ∷ 142 ∷ 230 ∷ 138 ∷ 164 ∷ 232 ∷ 133 ∷ 149 ∷ [])
        (232 ∷ 183 ∷ 145 ∷ 230 ∷ 173 ∷ 165 ∷ 233 ∷ 128 ∷ 159 ∷ 229 ∷ 186 ∷ 166 ∷ 32 ∷ 43 ∷ 49 ∷ [])
    ∷ item 3 (230 ∷ 137 ∷ 169 ∷ 229 ∷ 174 ∷ 185 ∷ 229 ∷ 188 ∷ 185 ∷ 229 ∷ 140 ∷ 163 ∷ [])
        (229 ∷ 188 ∷ 185 ∷ 229 ∷ 164 ∷ 185 ∷ 229 ∷ 173 ∷ 144 ∷ 229 ∷ 188 ∷ 185 ∷ 32 ∷ 43 ∷ 52 ∷ [])
    ∷ item 4 (229 ∷ 174 ∷ 136 ∷ 230 ∷ 138 ∷ 164 ∷ 229 ∷ 190 ∷ 189 ∷ 231 ∷ 171 ∷ 160 ∷ []) (
        230 ∷ 160 ∷ 188 ∷ 230 ∷ 140 ∷ 161 ∷ 230 ∷ 157 ∷ 161 ∷ 228 ∷ 184 ∷ 138 ∷ 233 ∷ 153 ∷ 144 ∷ 32
        ∷ 43 ∷ 49 ∷ 48 ∷ [])
    ∷ []
