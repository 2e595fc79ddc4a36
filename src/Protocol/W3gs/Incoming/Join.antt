-- ===== src/Protocol/W3gs/Incoming/Join.antt =====
-- REQ_JOIN: a well-formed request is read back whole, and a cut one is refused.
use ghostrs.Base.{
  ℕ, ◌<◌, ◌≡◌, refl, sym, ap, [], ◌∷◌, ◌++◌, arith, length, take, IsU16, IsU32, le16, le32,
  append_assoc, append-nil,
}
use ghostrs.Protocol.Error.{ProtoError, Result, ok, err}
use ghostrs.Protocol.Utf8.{IsUtf8}
use ghostrs.Protocol.Buffer.{Bytes, cstring}
use ghostrs.Protocol.Buffer.Reads.{NulFree, get_u8, get_u16, get_u32, get_bytes, get_cstring}
use ghostrs.Protocol.Buffer.Local.{
  IsLocal, return-IsLocal, fail-IsLocal, >>=-IsLocal, reads-IsLocal, cut_fails,
}
use ghostrs.Protocol.W3gs.Incoming.{ReqJoin, quad, non_empty, req_join, run}

-- The bytes of a request, with those that the decoder skips.
abbrev pub join_bytes : ReqJoin → ℕ → Bytes → Bytes
join_bytes r unknown unknown2 =
    le32 r.host_counter
    ++ le32 r.entry_key
    ++ unknown ∷ le16 r.listen_port
    ++ le32 r.peer_key
    ++ cstring r.name
    ++ unknown2
    ++ r.internal_ip

pub record IsJoin (r : ReqJoin) (unknown2 : Bytes) : Type 0 where
  pub host_counter : IsU32 r.host_counter
  pub entry_key : IsU32 r.entry_key
  pub listen_port : IsU16 r.listen_port
  pub peer_key : IsU32 r.peer_key
  pub named : 0 < length r.name
  pub text : IsUtf8 r.name
  pub no_nul : NulFree r.name
  pub skipped : length unknown2 ≡ 6
  pub ip : length r.internal_ip ≡ 4

pub quad_lem : (xs : Bytes) → length xs ≡ 4 → quad xs ≡ xs
quad_lem [] h = absurd (omega arith)
quad_lem (a ∷ []) h = absurd (omega arith)
quad_lem (a ∷ b ∷ []) h = absurd (omega arith)
quad_lem (a ∷ b ∷ c ∷ []) h = absurd (omega arith)
quad_lem (a ∷ b ∷ c ∷ d ∷ []) h = refl
quad_lem (a ∷ b ∷ c ∷ d ∷ e ∷ xs) h = absurd (omega arith)

non_empty_lem : (s rest : Bytes) → 0 < length s → non_empty s rest ≡ (ok s, rest)
non_empty_lem [] rest h = absurd (omega arith)
non_empty_lem (c ∷ cs) rest h = refl

regroup :
    (name u ip rest : Bytes)
    → (cstring name ++ u ++ ip) ++ rest ≡ cstring name ++ (u ++ (ip ++ rest))
regroup name u ip rest = simp append_assoc

pub req_join_lem :
    (r : ReqJoin) (unknown : ℕ) (unknown2 rest : Bytes)
    → IsJoin r unknown2
    → req_join (join_bytes r unknown unknown2 ++ rest) ≡ (ok r, rest)
unfolding req_join
req_join_lem r unknown unknown2 rest v = rw (
  get_u32 r.host_counter _ v.host_counter,
  get_u32 r.entry_key _ v.entry_key,
  get_u8,
  get_u16 r.listen_port _ v.listen_port,
  get_u32 r.peer_key _ v.peer_key,
  regroup r.name unknown2 r.internal_ip rest,
  get_cstring r.name _ v.no_nul v.text,
  non_empty_lem r.name _ v.named,
  get_bytes unknown2 _ 6 (sym v.skipped),
  get_bytes r.internal_ip rest 4 (sym v.ip),
  quad_lem r.internal_ip v.ip,
)

non_empty-IsLocal : (s : Bytes) → IsLocal (non_empty s)
non_empty-IsLocal [] = fail-IsLocal _
non_empty-IsLocal (c ∷ cs) = return-IsLocal _

pub req_join-IsLocal : IsLocal req_join
unfolding req_join
req_join-IsLocal = >>=-IsLocal _ _ (reads-IsLocal.2) λ _. >>=-IsLocal _ _ (reads-IsLocal.2) λ _.
    >>=-IsLocal _ _ (reads-IsLocal.0) λ _. >>=-IsLocal _ _ (reads-IsLocal.1) λ _.
      >>=-IsLocal _ _ (reads-IsLocal.2) λ _. >>=-IsLocal _ _ (reads-IsLocal.4) λ name.
        >>=-IsLocal _ _ (non_empty-IsLocal name) λ _.
          >>=-IsLocal _ _ (reads-IsLocal.3 6)
            λ _. >>=-IsLocal _ _ (reads-IsLocal.3 4) λ _. return-IsLocal _

-- `ReqJoin::decode` gives a well-formed request back, and an error on every proper prefix of its
-- bytes.
pub decode_req_join :
    (r : ReqJoin) (unknown : ℕ) (unknown2 : Bytes) (k : ℕ)
    → IsJoin r unknown2
    → k < length (join_bytes r unknown unknown2)
    → (run req_join (join_bytes r unknown unknown2) ≡ ok r)
      × ((e : ProtoError) × (run req_join (take k (join_bytes r unknown unknown2)) ≡ err e))
decode_req_join r unknown unknown2 k v h =
    let whole : req_join (join_bytes r unknown unknown2) ≡ (ok r, []) =
      rw append-nil at (req_join_lem r unknown unknown2 [] v) in
    (
      ap (λ (p : Result ReqJoin × Bytes). p.0) whole,
      cut_fails req_join _ r k req_join-IsLocal whole h,
    )
