-- ===== src/Room/MapData.antt =====
-- internal/room/mapdata.go: the wall boxes of the map. Each number is the bit pattern of the float32
-- that the source's literal denotes.
use lurkspire.Prelude.{List, [], ◌∷◌, ◌++◌}
use lurkspire.Protocol.Battle.{F32}

pub record WallBox : Type 0 where
  pub x : F32
  pub y : F32
  pub z : F32
  pub w : F32
  pub h : F32
  pub d : F32

abbrev wall : F32 → F32 → F32 → F32 → F32 → F32 → WallBox
wall x y z w h d = record { x = x; y = y; z = z; w = w; h = h; d = d }

walls_1 : List WallBox
walls_1 =
    wall 0x436c8000 0x402ccccd 0x4317b333 0x41400000 0x41800000 0x3f19999a
    ∷ wall 0x4383cccd 0x40d00000 0x43203333 0x41000000 0x3f4ccccd 0x41000000
    ∷ wall 0x430a747b 0x402ccccd 0x42a96f1b 0x41d7e560 0x41100000 0x3fec8b44
    ∷ wall 0x4346999a 0x41f8f5c3 0x42d4cccd 0x41fc0000 0x3ee66666 0x41fc0000
    ∷ wall 0x433c4ccd 0x411ccccd 0x431a6666 0x3f4ccccd 0x41c00000 0x41000000
    ∷ wall 0x43350000 0x40700000 0x42986666 0x41400000 0x41c00000 0x3f19999a
    ∷ wall 0x4361b333 0x40f80000 0x4284cccd 0x41800000 0x42000000 0x3ecccccd
    ∷ wall 0x43823333 0x40b80000 0x426c0000 0x41800000 0x41800000 0x3ecccccd
    ∷ wall 0x4375cccd 0x40700000 0x4304b333 0x3f19999a 0x41400000 0x3fcccccd
    ∷ wall 0x43827333 0x40d00000 0x42a86666 0x41000000 0x3f4ccccd 0x41000000
    ∷ wall 0x4341e666 0x411c0000 0x4275cccd 0x41c00000 0x3f99999a 0x41000000
    ∷ wall 0x4369cccd 0x40700000 0x4290999a 0x3f19999a 0x41400000 0x3fcccccd
    ∷ wall 0x4369b333 0x40f80000 0x4279999a 0x3fcccccd 0x42000000 0x41000000
    ∷ wall 0x43584ccd 0x40bccccd 0x43008000 0x41400000 0x41800000 0x3ecccccd
    ∷ wall 0x436c8000 0x402ccccd 0x4323b333 0x41400000 0x41800000 0x3f19999a
    ∷ wall 0x434ae666 0x40a80000 0x42aa0000 0x3fcccccd 0x41800000 0x41000000
    ∷ wall 0x438e7021 0x410eb852 0x4304f2f2 0x3ffcac08 0x41600000 0x41eafdf4
    ∷ wall 0x43259efa 0x41d9147b 0x42c84e56 0x41ff6e98 0x417a6e98 0x4039db23
    ∷ wall 0x4316999a 0x40a4cccd 0x42e70000 0x3ecccccd 0x41400000 0x41000000
    ∷ wall 0x430c4ccd 0x40200000 0x430b4ccd 0x3ecccccd 0x41000000 0x41000000
    ∷ wall 0x431acccd 0x40200000 0x4312199a 0x41000000 0x41800000 0x3f4ccccd
    ∷ wall 0x4369c76d 0x41b94bc7 0x42f672b0 0x421f1aa0 0x41a41cac 0x40ab3333
    ∷ wall 0x435fe666 0x40200000 0x42c5cccd 0x41000000 0x41000000 0x3ecccccd
    ∷ wall 0x43374ccd 0x40a00000 0x4302199a 0x41800000 0x41800000 0x3ecccccd
    ∷ wall 0x4385078d 0x4039999a 0x431366a8 0x41333b64 0x40866666 0x3f77ced9
    ∷ wall 0x4369b3f8 0x41b25e35 0x42f13b64 0x421e77cf 0x4196eb85 0x411d7cee
    ∷ wall 0x4312999a 0x40a4cccd 0x42ef0000 0x41000000 0x41400000 0x3ecccccd
    ∷ wall 0x431bcccd 0x40700000 0x42810000 0x41800000 0x41400000 0x3ecccccd
    ∷ wall 0x436fcccd 0x40700000 0x42923333 0x41400000 0x41400000 0x3da3d70a
    ∷ wall 0x4303999a 0x402ccccd 0x4291cccd 0x3f99999a 0x41800000 0x41400000
    ∷ wall 0x43584ccd 0x41566666 0x42f90000 0x41400000 0x3f4ccccd 0x41000000
    ∷ wall 0x43630000 0x40b80000 0x430f199a 0x3ecccccd 0x41800000 0x41000000
    ∷ wall 0x42ef3333 0x402ccccd 0x4291cccd 0x3f99999a 0x41800000 0x41400000
    ∷ wall 0x4341e666 0x40700000 0x4265cccd 0x41c00000 0x41400000 0x3ecccccd
    ∷ wall 0x431acccd 0x41200000 0x430a199a 0x41000000 0x3f4ccccd 0x41800000
    ∷ wall 0x43280000 0x411c0000 0x42cfcccd 0x41800000 0x3f99999a 0x41000000
    ∷ wall 0x431847ae 0x40328f5c 0x42ae4ed9 0x3f46a7f0 0x41100000 0x40ca147b
    ∷ wall 0x43863333 0x40b80000 0x427c0000 0x3f4ccccd 0x41800000 0x41000000
    ∷ wall 0x42e46666 0x40f80000 0x430dcccd 0x41400000 0x42000000 0x3ecccccd
    ∷ wall 0x437c3333 0x40700000 0x42ca999a 0x3f99999a 0x41400000 0x41000000
    ∷ wall 0x436fcccd 0x40700000 0x43058000 0x41400000 0x41400000 0x3da3d70a
    ∷ wall 0x43143333 0x40f00000 0x4286cccd 0x41800000 0x41c00000 0x3ef5c28f
    ∷ wall 0x430f8148 0x4180e148 0x42baef1b 0x41974396 0x3ee66666 0x41974396
    ∷ wall 0x4316cccd 0x40200000 0x430a199a 0x3f4ccccd 0x41800000 0x41800000
    ∷ wall 0x42fae0c5 0x413b3333 0x42bcced9 0x3fb0e560 0x41100000 0x418ffdf4
    ∷ wall 0x43374ccd 0x40a00000 0x430a199a 0x41800000 0x41800000 0x3ecccccd
    ∷ wall 0x43700b44 0xc0400000 0x43174354 0x41400000 0x40c00000 0x42200000
    ∷ wall 0x4361b333 0x41b60000 0x4279999a 0x41800000 0x3fcccccd 0x41000000
    ∷ wall 0x43444ccd 0x41ae6666 0x431a6666 0x41800000 0x4019999a 0x41000000
    ∷ wall 0x43223333 0x40c80000 0x42f0cccd 0x3ecccccd 0x41a00000 0x41000000
    ∷ wall 0x43892e14 0x4061eb85 0x42fab646 0x3f77ced9 0x40866666 0x41333b64
    ∷ wall 0x42fa5687 0x40accccd 0x42b26666 0x3f22d0e5 0x40666666 0x40678d50
    ∷ wall 0x4388d958 0x40a00000 0x42ec9e35 0x3fbccccd 0x41600000 0x3fbccccd
    ∷ wall 0x43084ccd 0x40200000 0x430f4ccd 0x41000000 0x41000000 0x3ecccccd
    ∷ wall 0x438ae666 0x40200000 0x42ab6666 0x41000000 0x41800000 0x3f4ccccd
    ∷ wall 0x4312999a 0x40a4cccd 0x42df0000 0x41000000 0x41400000 0x3ecccccd
    ∷ wall 0x42e46666 0x40f80000 0x4305cccd 0x41400000 0x42000000 0x3ecccccd
    ∷ wall 0x43300000 0x40700000 0x42cfcccd 0x3f4ccccd 0x41400000 0x41000000
    ∷ wall 0x430c3333 0x40f00000 0x427a6666 0x3f4ccccd 0x41c00000 0x4119999a
    ∷ wall 0x432736c9 0x41bd5a1d 0x42c49e35 0x41fd1cac 0x41688312 0x40efae14
    ∷ wall 0x436c8000 0x41233333 0x431db333 0x41400000 0x3f4ccccd 0x41400000
    ∷ wall 0x42fa0a3d 0x402ccccd 0x42aca148 0x3f10e560 0x41100000 0x401147ae
    ∷ wall 0x437c6666 0x40b80000 0x427c0000 0x3f4ccccd 0x41800000 0x41000000
    ∷ wall 0x432f4ccd 0x40a00000 0x4306199a 0x3f4ccccd 0x41800000 0x41000000
    ∷ wall 0x433f4ccd 0x40a00000 0x4306199a 0x3f4ccccd 0x41800000 0x41000000
    ∷ wall 0x43700b44 0xc0c00000 0x42c4ed0e 0x41400000 0x3f000000 0x428a0000
    ∷ wall 0x4384199a 0x40700000 0x42c2999a 0x41c00000 0x41400000 0x3ecccccd
    ∷ wall 0x43444ccd 0x411ccccd 0x431e6666 0x41800000 0x41c00000 0x3ecccccd
    ∷ wall 0x43263333 0x41820000 0x42f0cccd 0x41000000 0x40000000 0x41000000
    ∷ wall 0x437ae6e9 0x411e6666 0x430ac7f0 0x3f77ced9 0x40866666 0x41333b64
    ∷ wall 0x43350000 0x40700000 0x42b06666 0x41400000 0x41c00000 0x3f19999a
    ∷ wall 0x436fcccd 0x40700000 0x4303e666 0x41400000 0x41400000 0x3da3d70a
    ∷ wall 0x4388e666 0x40200000 0x429b6666 0x3f4ccccd 0x41800000 0x41800000
    ∷ wall 0x43084ccd 0x40d00000 0x430b4ccd 0x41000000 0x3f4ccccd 0x41000000
    ∷ wall 0x436aa28f 0x41c66042 0x42f55168 0x421ef2b0 0x41a08b44 0x40cf0a3d
    ∷ []

walls_2 : List WallBox
walls_2 =
    wall 0x438c0b64 0x4161999a 0x42ec3439 0x41333b64 0x40866666 0x3f77ced9
    ∷ wall 0x430b072b 0x40e0a3d7 0x42bf8b44 0x41dd7cee 0x3ee66666 0x417547ae
    ∷ wall 0x436fcccd 0x411c0000 0x4304b333 0x41400000 0x3f99999a 0x3fcccccd
    ∷ wall 0x434e4000 0x41a40000 0x42e4199a 0x40d5d2f2 0x42b40000 0x40d5d2f2
    ∷ wall 0x42fb3333 0x402ccccd 0x4285cccd 0x41400000 0x41800000 0x3f19999a
    ∷ wall 0x4346999a 0x41a40000 0x42ea6666 0x41100000 0x42b40000 0x3ee66666
    ∷ wall 0x432a2042 0x41cc7ae1 0x42b1dd2f 0x41d90a3d 0x419351ec 0x3fd4bc6a
    ∷ wall 0x433b0000 0x40700000 0x42a46666 0x3f99999a 0x41c00000 0x41400000
    ∷ wall 0x436b3375 0x41cc24dd 0x42f1eb85 0x421ce560 0x4196374c 0x40e48b44
    ∷ wall 0x434c4ccd 0x411ccccd 0x431a6666 0x3f4ccccd 0x41c00000 0x41000000
    ∷ wall 0x42d00000 0x41e00000 0x42de0000 0x3dcccccd 0x42c80000 0x42f40000
    ∷ wall 0x4322199a 0x40c9999a 0x43260000 0x41400000 0x41800000 0x3f19999a
    ∷ wall 0x43516666 0x41a40000 0x42d4cccd 0x3ee66666 0x42b40000 0x41100000
    ∷ wall 0x43584ccd 0x40bccccd 0x42f10000 0x41400000 0x41800000 0x3ecccccd
    ∷ wall 0x435f0000 0x40b80000 0x430b199a 0x41000000 0x41800000 0x3ecccccd
    ∷ wall 0x43280000 0x40700000 0x42d7cccd 0x41800000 0x41400000 0x3ecccccd
    ∷ wall 0x4328199a 0x40c9999a 0x43200000 0x3f99999a 0x41800000 0x41400000
    ∷ wall 0x4313cccd 0x40700000 0x42890000 0x3f4ccccd 0x41400000 0x41000000
    ∷ wall 0x43699062 0x41be0000 0x42fed4fe 0x4222a2d1 0x41b347ae 0x40b147ae
    ∷ wall 0x432a3333 0x40c80000 0x42f0cccd 0x3ecccccd 0x41a00000 0x41000000
    ∷ wall 0x42fb2873 0x402ccccd 0x42c23333 0x3f8d0e56 0x41100000 0x4149b22d
    ∷ wall 0x43524ccd 0x40bccccd 0x42f90000 0x3f99999a 0x41800000 0x41000000
    ∷ wall 0x43267fbe 0x41c8e148 0x42ca9375 0x4201449c 0x41835810 0x3f8ef9db
    ∷ wall 0x4343e666 0x41e00000 0x424ccccd 0x433a0000 0x42c80000 0x3dcccccd
    ∷ wall 0x42fb3333 0x41233333 0x4291cccd 0x41400000 0x3f4ccccd 0x41400000
    ∷ wall 0x42f6999a 0x40a00000 0x4321999a 0x41c00000 0x41800000 0x3ecccccd
    ∷ wall 0x430b6312 0x413b3333 0x42cd62d1 0x41d7e560 0x41100000 0x3fec8b44
    ∷ wall 0x435b0000 0x40b80000 0x430f199a 0x3ecccccd 0x41800000 0x41000000
    ∷ wall 0x4318b4bc 0x402ccccd 0x42c5b22d 0x3f46a7f0 0x41100000 0x40ca147b
    ∷ wall 0x43045df4 0x41580000 0x42bd6c8b 0x4158147b 0x40accccd 0x3f93126f
    ∷ wall 0x430056c9 0x40e0a3d7 0x42af87ae 0x40d80831 0x3ee66666 0x40b74bc7
    ∷ wall 0x435fe666 0x40d00000 0x42cdcccd 0x41000000 0x3f4ccccd 0x41000000
    ∷ wall 0x43030000 0x40200000 0x42edcccd 0x3f4ccccd 0x41800000 0x41800000
    ∷ wall 0x4376b0a4 0x40d80000 0x42f490e5 0x3f77ced9 0x40866666 0x41333b64
    ∷ wall 0x42f06666 0x40f80000 0x4309cccd 0x3f99999a 0x42000000 0x41000000
    ∷ wall 0x435ae666 0x40a80000 0x42aa0000 0x3fcccccd 0x41800000 0x41000000
    ∷ wall 0x43143333 0x40f00000 0x42673333 0x41800000 0x41c00000 0x3ef5c28f
    ∷ wall 0x431bcccd 0x411c0000 0x42890000 0x41800000 0x3f99999a 0x41000000
    ∷ wall 0x4361b333 0x40f80000 0x4269999a 0x41800000 0x42000000 0x3ecccccd
    ∷ wall 0x4381d28f 0x40a00000 0x43038d91 0x41ed9581 0x3f333333 0x4203fefa
    ∷ wall 0x42d86666 0x40f80000 0x4309cccd 0x3f99999a 0x42000000 0x41000000
    ∷ wall 0x43833873 0x41400000 0x4303b4fe 0x41bfeb85 0x3f333333 0x41f4be77
    ∷ wall 0x430e999a 0x40a4cccd 0x42e70000 0x3ecccccd 0x41400000 0x41000000
    ∷ wall 0x4383cccd 0x40200000 0x431c3333 0x41000000 0x41000000 0x3ecccccd
    ∷ wall 0x431bcccd 0x40700000 0x42910000 0x41800000 0x41400000 0x3ecccccd
    ∷ wall 0x433ef333 0x41a40000 0x42c58000 0x40d5d2f2 0x42b40000 0x40d5d2f2
    ∷ wall 0x430b6312 0x402ccccd 0x42cd62d1 0x41d7e560 0x41100000 0x3fec8b44
    ∷ wall 0x4383cccd 0x40200000 0x43243333 0x41000000 0x41000000 0x3ecccccd
    ∷ wall 0x438a199a 0x40700000 0x42ca999a 0x3f99999a 0x41400000 0x41000000
    ∷ wall 0x4381cccd 0x40200000 0x43203333 0x3ecccccd 0x41000000 0x41000000
    ∷ wall 0x43760b44 0xc0400000 0x42ca86a8 0x3e99999a 0x40c00000 0x42700000
    ∷ wall 0x4323cccd 0x40700000 0x42890000 0x3f4ccccd 0x41400000 0x41000000
    ∷ wall 0x431acccd 0x40200000 0x4302199a 0x41000000 0x41800000 0x3f4ccccd
    ∷ wall 0x42f6999a 0x41500000 0x431d999a 0x41c00000 0x3fcccccd 0x41000000
    ∷ wall 0x438ae666 0x41200000 0x429b6666 0x41000000 0x3f4ccccd 0x41800000
    ∷ wall 0x437cbae1 0x40a00000 0x42ea4c4a 0x3fbccccd 0x41600000 0x3fbccccd
    ∷ wall 0x42f60000 0x40200000 0x42edcccd 0x3f4ccccd 0x41800000 0x41800000
    ∷ wall 0x430a747b 0x413b3333 0x42a96f1b 0x41d7e560 0x41100000 0x3fec8b44
    ∷ wall 0x4346999a 0x41a40000 0x42bf3333 0x41100000 0x42b40000 0x3ee66666
    ∷ wall 0x4384199a 0x411c0000 0x42ca999a 0x41c00000 0x3f99999a 0x41000000
    ∷ wall 0x434de666 0x40700000 0x4275cccd 0x3f99999a 0x41400000 0x41000000
    ∷ wall 0x43374ccd 0x41500000 0x4306199a 0x41800000 0x3fcccccd 0x41000000
    ∷ wall 0x4384199a 0x40700000 0x42d2999a 0x41c00000 0x41400000 0x3ecccccd
    ∷ wall 0x43700b44 0xc0400000 0x42780d50 0x41400000 0x40c00000 0x41ac0000
    ∷ wall 0x4302d604 0x4180e148 0x42b410e5 0x4134c49c 0x3ee66666 0x412722d1
    ∷ wall 0x43728000 0x402ccccd 0x431db333 0x3f99999a 0x41800000 0x41400000
    ∷ wall 0x4346999a 0x42830000 0x42d4cccd 0x41b40000 0x3ee66666 0x41b40000
    ∷ wall 0x431ecccd 0x40200000 0x430a199a 0x3f4ccccd 0x41800000 0x41800000
    ∷ wall 0x438b3d71 0x4161999a 0x43132d50 0x41333b64 0x40866666 0x3f77ced9
    ∷ wall 0x43263333 0x40c80000 0x42e8cccd 0x41000000 0x41a00000 0x3ecccccd
    ∷ wall 0x42f6999a 0x40a00000 0x4319999a 0x41c00000 0x41800000 0x3ecccccd
    ∷ wall 0x43807333 0x40200000 0x42a86666 0x3ecccccd 0x41000000 0x41000000
    ∷ wall 0x43847333 0x40200000 0x42a86666 0x3ecccccd 0x41000000 0x41000000
    ∷ wall 0x436a8148 0x41ba978d 0x42ec7a5e 0x421f1aa0 0x41a41cac 0x40ab3333
    ∷ wall 0x431bc189 0x4150147b 0x42b04a3d 0x3f6a3d71 0x41100000 0x41102d0e
    ∷ []

walls_3 : List WallBox
walls_3 =
    wall 0x432f0000 0x40700000 0x42a46666 0x3f99999a 0x41c00000 0x41400000
    ∷ wall 0x42fe0000 0x40200000 0x42ddcccd 0x41000000 0x41800000 0x3f4ccccd
    ∷ wall 0x4322199a 0x415ccccd 0x43200000 0x41400000 0x3f4ccccd 0x41400000
    ∷ wall 0x43823333 0x415c0000 0x427c0000 0x41800000 0x3fcccccd 0x41000000
    ∷ wall 0x431c3333 0x40f00000 0x427a6666 0x3f4ccccd 0x41c00000 0x4119999a
    ∷ wall 0x438ae666 0x40200000 0x428b6666 0x41000000 0x41800000 0x3f4ccccd
    ∷ wall 0x430b2312 0x40580000 0x42b26042 0x4184b22d 0x41333b64 0x3fa76c8b
    ∷ wall 0x43084ccd 0x40200000 0x43074ccd 0x41000000 0x41000000 0x3ecccccd
    ∷ wall 0x4335e666 0x40700000 0x4275cccd 0x3f99999a 0x41400000 0x41000000
    ∷ wall 0x434e4000 0x41a40000 0x42c58000 0x40d5d2f2 0x42b40000 0x40d5d2f2
    ∷ wall 0x436fcccd 0x40700000 0x428f0000 0x41400000 0x41400000 0x3da3d70a
    ∷ wall 0x4343e666 0x41e00000 0x432b6666 0x433a0000 0x42c80000 0x3dcccccd
    ∷ wall 0x43908000 0x41e00000 0x42de0000 0x3dcccccd 0x42c80000 0x42f40000
    ∷ wall 0x4352e666 0x414c0000 0x42aa0000 0x41800000 0x3f4ccccd 0x41000000
    ∷ wall 0x43668000 0x402ccccd 0x431db333 0x3f99999a 0x41800000 0x41400000
    ∷ wall 0x43280000 0x40700000 0x42c7cccd 0x41800000 0x41400000 0x3ecccccd
    ∷ wall 0x43044ccd 0x40200000 0x430b4ccd 0x3ecccccd 0x41000000 0x41000000
    ∷ wall 0x43350000 0x41700000 0x42a46666 0x41400000 0x3f99999a 0x41400000
    ∷ wall 0x4359b333 0x40f80000 0x4279999a 0x3fcccccd 0x42000000 0x41000000
    ∷ wall 0x433ef333 0x41a40000 0x42e4199a 0x40d5d2f2 0x42b40000 0x40d5d2f2
    ∷ wall 0x435be666 0x40200000 0x42cdcccd 0x3ecccccd 0x41000000 0x41000000
    ∷ wall 0x42fe0000 0x40200000 0x42fdcccd 0x41000000 0x41800000 0x3f4ccccd
    ∷ wall 0x43263333 0x40c80000 0x42f8cccd 0x41000000 0x41a00000 0x3ecccccd
    ∷ wall 0x43827333 0x40200000 0x42b06666 0x41000000 0x41000000 0x3ecccccd
    ∷ wall 0x43200000 0x40700000 0x42cfcccd 0x3f4ccccd 0x41400000 0x41000000
    ∷ wall 0x43255d2f 0x41deb646 0x42c392f2 0x41fb5810 0x41641cac 0x405d2f1b
    ∷ wall 0x43143333 0x419c0000 0x427a6666 0x41800000 0x4019999a 0x4119999a
    ∷ wall 0x43880f5c 0x4161999a 0x4312d333 0x41333b64 0x40866666 0x3f77ced9
    ∷ wall 0x4385cccd 0x40200000 0x43203333 0x3ecccccd 0x41000000 0x41000000
    ∷ wall 0x431c199a 0x40c9999a 0x43200000 0x3f99999a 0x41800000 0x41400000
    ∷ wall 0x436b2625 0x41c749ba 0x42ee4189 0x421d51ec 0x419fd0e5 0x40d73b64
    ∷ wall 0x4375cccd 0x40700000 0x4290999a 0x3f19999a 0x41400000 0x3fcccccd
    ∷ wall 0x4341e666 0x40700000 0x4282e666 0x41c00000 0x41400000 0x3ecccccd
    ∷ wall 0x430df5c3 0x415970a4 0x42a911ec 0x41d7e560 0x40900000 0x3fec8b44
    ∷ wall 0x438b420c 0x410eb852 0x430498d5 0x3ffcac08 0x41600000 0x41eafdf4
    ∷ wall 0x43444ccd 0x411ccccd 0x43166666 0x41800000 0x41c00000 0x3ecccccd
    ∷ wall 0x435e4ccd 0x40bccccd 0x42f90000 0x3f99999a 0x41800000 0x41000000
    ∷ wall 0x437b2ed9 0x40a00000 0x43111b23 0x3fbccccd 0x41600000 0x3fbccccd
    ∷ wall 0x4322199a 0x40c9999a 0x431a0000 0x41400000 0x41800000 0x3f19999a
    ∷ wall 0x42fb3333 0x402ccccd 0x429dcccd 0x41400000 0x41800000 0x3f19999a
    ∷ wall 0x436a0b44 0xc0400000 0x42ca86a8 0x3e99999a 0x40c00000 0x42700000
    ∷ wall 0x4352e666 0x40a80000 0x42a20000 0x41800000 0x41800000 0x3ecccccd
    ∷ wall 0x4312999a 0x41326666 0x42e70000 0x41000000 0x3f99999a 0x41000000
    ∷ wall 0x4363e666 0x40200000 0x42cdcccd 0x3ecccccd 0x41000000 0x41000000
    ∷ wall 0x435f0000 0x415c0000 0x430f199a 0x41000000 0x3fcccccd 0x41000000
    ∷ wall 0x4369cccd 0x40700000 0x4304b333 0x3f19999a 0x41400000 0x3fcccccd
    ∷ wall 0x42e46666 0x41b60000 0x4309cccd 0x41400000 0x3fcccccd 0x41000000
    ∷ wall 0x42de999a 0x40a00000 0x431d999a 0x3f99999a 0x41800000 0x41000000
    ∷ wall 0x43827333 0x40200000 0x42a06666 0x41000000 0x41000000 0x3ecccccd
    ∷ wall 0x438ce666 0x40200000 0x429b6666 0x3f4ccccd 0x41800000 0x41800000
    ∷ wall 0x4352e666 0x40a80000 0x42b20000 0x41800000 0x41800000 0x3ecccccd
    ∷ wall 0x43823333 0x40b80000 0x42860000 0x41800000 0x41800000 0x3ecccccd
    ∷ wall 0x433bcccd 0x41a40000 0x42d4cccd 0x3ee66666 0x42b40000 0x41100000
    ∷ wall 0x42fe0000 0x41200000 0x42edcccd 0x41000000 0x3f4ccccd 0x41800000
    ∷ wall 0x435f0000 0x40b80000 0x4313199a 0x41000000 0x41800000 0x3ecccccd
    ∷ wall 0x435fe666 0x40200000 0x42d5cccd 0x41000000 0x41000000 0x3ecccccd
    ∷ wall 0x4325defa 0x41d69581 0x42bf2979 0x4200820c 0x417e624e 0x40265604
    ∷ wall 0x4326da1d 0x41c55a1d 0x42bdaa7f 0x4201449c 0x41835810 0x3f8ef9db
    ∷ wall 0x430a926f 0x402ccccd 0x42aded91 0x417def9e 0x411a8b44 0x40a9c28f
    ∷ wall 0x436fcccd 0x411c0000 0x4290999a 0x41400000 0x3f99999a 0x3fcccccd
    ∷ wall 0x43074ccd 0x40a00000 0x431d999a 0x3f99999a 0x41800000 0x41000000
    ∷ wall 0x4388dd50 0x4161999a 0x42eb8000 0x41333b64 0x40866666 0x3f77ced9
    ∷ wall 0x43881354 0x40a00000 0x43124419 0x3fbccccd 0x41600000 0x3fbccccd
    ∷ wall 0x4385c5a2 0x0 0x42de86a8 0x422c0000 0x0 0x42f00000
    ∷ wall 0x43290b44 0x0 0x42de86a8 0x43020000 0x0 0x42f00000
    ∷ []

unfoldable pub map_walls : List WallBox
unfolding walls_1 walls_2 walls_3
map_walls = walls_1 ++ walls_2 ++ walls_3
