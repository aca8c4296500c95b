-- ===== src/Error.antt =====
-- The error codes of src/error.rs and their categories. The registry of texts is in Error/Registry.
pub mod Registry
pub mod Report
use minigraf.Prelude.{ℕ, ◌≡◌, refl, ◌⊎◌, inl, inr, Bool, Option, none, some, if◌then◌else◌}

-- `ErrorCategory`
pub data ErrorCategory : Type 0 where
  parser query storage wal api internal : ErrorCategory

-- `ErrorCode`
pub data ErrorCode : Type 0 where
  prs001 prs002 prs003 prs004 prs005 prs006 prs007 prs008 : ErrorCode
  prs009 prs010 prs011 prs012 prs013 prs014 prs015 prs016 : ErrorCode
  prs017 prs018 prs019 prs020 prs021 prs022 prs023 prs024 : ErrorCode
  prs025 prs026 prs027 prs028 prs029 prs030 prs031 prs032 : ErrorCode
  prs033 prs034 prs035 prs036 prs037 prs038 prs039 prs040 : ErrorCode
  prs041 prs042 prs043 prs044 prs045 prs046 prs047 prs048 : ErrorCode
  prs049 prs050 prs051 prs052 prs053 prs054 prs055 prs056 : ErrorCode
  prs057 prs058 prs059 prs060 prs061 prs062 prs063 prs064 : ErrorCode
  prs065 prs066 prs067 prs068 prs069 prs070 prs071 prs072 : ErrorCode
  prs073 prs074 prs075 prs076 prs077 prs078 prs079 prs108 : ErrorCode
  qry001 qry002 qry003 qry004 qry005 qry006 qry007 qry008 : ErrorCode
  qry009 int000 stg001 stg002 stg003 stg004 stg005 stg006 : ErrorCode
  stg007 stg008 stg009 stg010 stg011 stg012 stg013 stg014 : ErrorCode
  stg015 stg016 stg017 stg018 stg019 stg020 stg021 stg022 : ErrorCode
  stg023 stg024 stg025 stg026 stg027 stg045 wal001 wal002 : ErrorCode
  wal003 wal004 wal005 wal006 wal007 api001 api002 api003 : ErrorCode
  api004 api005 api006 api007 api008 api009 api010 int001 : ErrorCode
  int002 int003 int004 int005 int006 int007 int008 int009 : ErrorCode
  int010 int011 int012 int013 int014 int015 int016 int017 : ErrorCode
  int018 int019 int020 int021 int022 int023 int024 int025 : ErrorCode
  int026 int027 int028 int029 int030 int031 int032 int033 : ErrorCode
  int034 int035 int036 int037 int038 int039 int040 int041 : ErrorCode
  int042 int043 int044 int045 int046 int047 int048 int049 : ErrorCode
  int050 int051 int052 int053 int054 int055 : ErrorCode

-- The discriminant that the derived `PartialEq` of `ErrorCode` compares.
abbrev pub discriminant : ErrorCode → ℕ
discriminant prs001 = 0
discriminant prs002 = 1
discriminant prs003 = 2
discriminant prs004 = 3
discriminant prs005 = 4
discriminant prs006 = 5
discriminant prs007 = 6
discriminant prs008 = 7
discriminant prs009 = 8
discriminant prs010 = 9
discriminant prs011 = 10
discriminant prs012 = 11
discriminant prs013 = 12
discriminant prs014 = 13
discriminant prs015 = 14
discriminant prs016 = 15
discriminant prs017 = 16
discriminant prs018 = 17
discriminant prs019 = 18
discriminant prs020 = 19
discriminant prs021 = 20
discriminant prs022 = 21
discriminant prs023 = 22
discriminant prs024 = 23
discriminant prs025 = 24
discriminant prs026 = 25
discriminant prs027 = 26
discriminant prs028 = 27
discriminant prs029 = 28
discriminant prs030 = 29
discriminant prs031 = 30
discriminant prs032 = 31
discriminant prs033 = 32
discriminant prs034 = 33
discriminant prs035 = 34
discriminant prs036 = 35
discriminant prs037 = 36
discriminant prs038 = 37
discriminant prs039 = 38
discriminant prs040 = 39
discriminant prs041 = 40
discriminant prs042 = 41
discriminant prs043 = 42
discriminant prs044 = 43
discriminant prs045 = 44
discriminant prs046 = 45
discriminant prs047 = 46
discriminant prs048 = 47
discriminant prs049 = 48
discriminant prs050 = 49
discriminant prs051 = 50
discriminant prs052 = 51
discriminant prs053 = 52
discriminant prs054 = 53
discriminant prs055 = 54
discriminant prs056 = 55
discriminant prs057 = 56
discriminant prs058 = 57
discriminant prs059 = 58
discriminant prs060 = 59
discriminant prs061 = 60
discriminant prs062 = 61
discriminant prs063 = 62
discriminant prs064 = 63
discriminant prs065 = 64
discriminant prs066 = 65
discriminant prs067 = 66
discriminant prs068 = 67
discriminant prs069 = 68
discriminant prs070 = 69
discriminant prs071 = 70
discriminant prs072 = 71
discriminant prs073 = 72
discriminant prs074 = 73
discriminant prs075 = 74
discriminant prs076 = 75
discriminant prs077 = 76
discriminant prs078 = 77
discriminant prs079 = 78
discriminant prs108 = 79
discriminant qry001 = 80
discriminant qry002 = 81
discriminant qry003 = 82
discriminant qry004 = 83
discriminant qry005 = 84
discriminant qry006 = 85
discriminant qry007 = 86
discriminant qry008 = 87
discriminant qry009 = 88
discriminant int000 = 89
discriminant stg001 = 90
discriminant stg002 = 91
discriminant stg003 = 92
discriminant stg004 = 93
discriminant stg005 = 94
discriminant stg006 = 95
discriminant stg007 = 96
discriminant stg008 = 97
discriminant stg009 = 98
discriminant stg010 = 99
discriminant stg011 = 100
discriminant stg012 = 101
discriminant stg013 = 102
discriminant stg014 = 103
discriminant stg015 = 104
discriminant stg016 = 105
discriminant stg017 = 106
discriminant stg018 = 107
discriminant stg019 = 108
discriminant stg020 = 109
discriminant stg021 = 110
discriminant stg022 = 111
discriminant stg023 = 112
discriminant stg024 = 113
discriminant stg025 = 114
discriminant stg026 = 115
discriminant stg027 = 116
discriminant stg045 = 117
discriminant wal001 = 118
discriminant wal002 = 119
discriminant wal003 = 120
discriminant wal004 = 121
discriminant wal005 = 122
discriminant wal006 = 123
discriminant wal007 = 124
discriminant api001 = 125
discriminant api002 = 126
discriminant api003 = 127
discriminant api004 = 128
discriminant api005 = 129
discriminant api006 = 130
discriminant api007 = 131
discriminant api008 = 132
discriminant api009 = 133
discriminant api010 = 134
discriminant int001 = 135
discriminant int002 = 136
discriminant int003 = 137
discriminant int004 = 138
discriminant int005 = 139
discriminant int006 = 140
discriminant int007 = 141
discriminant int008 = 142
discriminant int009 = 143
discriminant int010 = 144
discriminant int011 = 145
discriminant int012 = 146
discriminant int013 = 147
discriminant int014 = 148
discriminant int015 = 149
discriminant int016 = 150
discriminant int017 = 151
discriminant int018 = 152
discriminant int019 = 153
discriminant int020 = 154
discriminant int021 = 155
discriminant int022 = 156
discriminant int023 = 157
discriminant int024 = 158
discriminant int025 = 159
discriminant int026 = 160
discriminant int027 = 161
discriminant int028 = 162
discriminant int029 = 163
discriminant int030 = 164
discriminant int031 = 165
discriminant int032 = 166
discriminant int033 = 167
discriminant int034 = 168
discriminant int035 = 169
discriminant int036 = 170
discriminant int037 = 171
discriminant int038 = 172
discriminant int039 = 173
discriminant int040 = 174
discriminant int041 = 175
discriminant int042 = 176
discriminant int043 = 177
discriminant int044 = 178
discriminant int045 = 179
discriminant int046 = 180
discriminant int047 = 181
discriminant int048 = 182
discriminant int049 = 183
discriminant int050 = 184
discriminant int051 = 185
discriminant int052 = 186
discriminant int053 = 187
discriminant int054 = 188
discriminant int055 = 189

-- An `anyhow::Error`: one of the crate's coded errors (its message is not modelled here), or an
-- error that a library call or the operating system returned.
pub data Failure : Type 0 where
  coded : ErrorCode → Failure
  foreign : Failure

-- `anyhow::Result`
pub data Result {ℓ} (A : Type ℓ) : Type ℓ where
  ok : A → Result A
  err : Failure → Result A

infixl 5 ◌>>=◌ ◌>>◌
abbrev pub ◌>>=◌ {ℓ} : {A B : Type ℓ} → Result A → (A → Result B) → Result B
r >>= next = elim r [ ok value ↦ next value | err failure ↦ err failure ]

-- A step for its failure only.
abbrev pub ◌>>◌ : {B : Type 0} → Result (Unit {0}) → Result B → Result B
check >> rest = elim check [ ok _ ↦ rest | err failure ↦ err failure ]

-- `if test { bail_coded!(code) }`
abbrev pub bail_if : Bool → ErrorCode → Result (Unit {0})
bail_if test code = if test then err (coded code) else ok tt

-- `o.ok_or_else(|| err_coded!(code))?`
abbrev pub ok_or {ℓ} : {A : Type ℓ} → Option A → ErrorCode → Result A
ok_or none code = err (coded code)
ok_or (some a) code = ok a

pub ok_injective : {A : Type 0} {a b : A} → ok a ≡ ok b → a ≡ b
ok_injective h = cc

-- A chain that succeeds has a first step that succeeds.
pub ok-of_bind {ℓ} :
    {A B : Type ℓ} (r : Result A) (next : A → Result B) {value : B}
    → (r >>= next) ≡ ok value
    → (first : A) × (r ≡ ok first) × (next first ≡ ok value)
ok-of_bind (err failure) next e = cc
ok-of_bind (ok first) next e = (first, refl, e)

pub Result-cases {ℓ} :
    {A : Type ℓ} (r : Result A) → ((f : Failure) × (r ≡ err f)) ⊎ ((value : A) × (r ≡ ok value))
Result-cases (err f) = inl (f, refl)
Result-cases (ok value) = inr (value, refl)
