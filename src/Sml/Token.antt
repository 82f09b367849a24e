-- ===== src/Sml/Token.antt =====
-- include/secs/sml/token.hpp: the tokens of SML.
use secs_lib.Common.{ℕ, List}

pub data TokenType : Type 0 where
  identifier string integer float : TokenType
  kw_if kw_every kw_send kw_w : TokenType
  kw_l kw_a kw_b kw_boolean kw_u1 kw_u2 kw_u4 kw_u8 kw_i1 kw_i2 kw_i4 kw_i8 kw_f4 kw_f8 : TokenType
  colon dot l_angle r_angle l_paren r_paren l_bracket r_bracket equals : TokenType
  eof error : TokenType

-- A text is the list of its characters' codes.
pub record Token : Type 0 where
  pub token_type : TokenType
  pub value : List ℕ
  pub line : ℕ
  pub column : ℕ

-- The enumerators in their order.
unfoldable pub index_of : TokenType → ℕ
index_of identifier = 0
index_of string = 1
index_of integer = 2
index_of float = 3
index_of kw_if = 4
index_of kw_every = 5
index_of kw_send = 6
index_of kw_w = 7
index_of kw_l = 8
index_of kw_a = 9
index_of kw_b = 10
index_of kw_boolean = 11
index_of kw_u1 = 12
index_of kw_u2 = 13
index_of kw_u4 = 14
index_of kw_u8 = 15
index_of kw_i1 = 16
index_of kw_i2 = 17
index_of kw_i4 = 18
index_of kw_i8 = 19
index_of kw_f4 = 20
index_of kw_f8 = 21
index_of colon = 22
index_of dot = 23
index_of l_angle = 24
index_of r_angle = 25
index_of l_paren = 26
index_of r_paren = 27
index_of l_bracket = 28
index_of r_bracket = 29
index_of equals = 30
index_of eof = 31
index_of error = 32
