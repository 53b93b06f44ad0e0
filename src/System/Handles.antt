-- ===== src/System/Handles.antt =====
-- The names of the interfaces that are bound: no two of them are the same.
use robstride_ros.Prelude.{
  ℕ, zero, suc, ◌+◌, Bool, true, false, some, List, [], ◌∷◌, ◌≡◌, ◌≢◌, ◌⊎◌, inl, inr, refl, sym, ap,
  subst, arith, Bool-cases, Text, text_eq, All, map, get_elem?,
}
use robstride_ros.Double.{Double}
use robstride_ros.Joint.{JointData, ClaimedInterfaces}
use robstride_ros.CommandMode.{CommandModeState, position_key, velocity_key, effort_key}
use robstride_ros.CommandMode.Keys.{Interface, key_of, key_of-injective, text_eq_refl}
use robstride_ros.CommandMode.Switch.{IsDistinct}
use robstride_ros.System.Bindings.{CommandMember, Binding}
use robstride_ros.System.State.{command_bindings, bind}
use robstride_ros.System.Consume.{unsampled}
use robstride_ros.System.Published.{IsSeparate, handles_of, IsAmong}

-- The key of a joint's interface, and whether a joint claims it.
abbrev pub key : Text → CommandMember → Text
key name CommandMember.position = position_key name
key name CommandMember.velocity = velocity_key name
key name CommandMember.effort = effort_key name

abbrev pub claims : CommandMember → ClaimedInterfaces → Bool
claims CommandMember.position c = c.position
claims CommandMember.velocity c = c.velocity
claims CommandMember.effort c = c.effort

abbrev interface : CommandMember → Interface
interface CommandMember.position = Interface.position
interface CommandMember.velocity = Interface.velocity
interface CommandMember.effort = Interface.effort

key-key_of : (name : Text) (m : CommandMember) → key name m ≡ key_of name (interface m)
key-key_of name CommandMember.position = refl
key-key_of name CommandMember.velocity = refl
key-key_of name CommandMember.effort = refl

-- Keys of two joints, or of two interfaces, differ.
key-apart :
    (m n : Text) (a b : CommandMember)
    → (m ≢ n) ⊎ (interface a ≢ interface b)
    → text_eq (key m a) (key n b) ≡ false
key-apart m n a b different = elim (Bool-cases (text_eq (key m a) (key n b))) [
  | inr apart ↦ apart
  | inl same ↦
      let (names, interfaces) =
        key_of-injective (key_of m (interface a)) m n (interface a) (interface b)
          (text_eq_refl (key_of m (interface a)))
          (subst (λ x. text_eq x (key_of n (interface b)) ≡ true) (key-key_of m a)
            (subst (λ x. text_eq (key m a) x ≡ true) (key-key_of n b) same)) in
      elim different [ inl ne ↦ absurd (ne names) | inr ne ↦ absurd (ne interfaces) ]
]

module _ {W : Type 0} ⦃d : Double W⦄ where
  abbrev pub state_of : JointData W → CommandModeState
  state_of j = record {
    joint_name = j.name;
    position_active = j.claimed.position;
    velocity_active = j.claimed.velocity;
    effort_active = j.claimed.effort;
  }

  keys-apart :
      (name : Text) (m : CommandMember) (k : ℕ) (joints : List (JointData W))
      → All (λ t. name ≢ t.joint_name) (map state_of joints)
      → All (λ other. text_eq (key name m) other ≡ false) (handles_of (command_bindings k joints))
  unfolding command_bindings
  keys-apart name m k [] others = tt
  keys-apart name m k (j ∷ joints) (other, others) =
      let apart : (b : CommandMember) → text_eq (key name m) (key j.name b) ≡ false =
        λ b. key-apart name j.name m b (inl other) in
      (
        apart CommandMember.position,
        (
          apart CommandMember.velocity,
          (apart CommandMember.effort, keys-apart name m (k + 1) joints others),
        ),
      )

  pub command_bindings-IsSeparate :
      (k : ℕ) (joints : List (JointData W))
      → IsDistinct (map state_of joints)
      → IsSeparate (handles_of (command_bindings k joints))
  unfolding command_bindings
  command_bindings-IsSeparate k [] distinct = tt
  command_bindings-IsSeparate k (j ∷ joints) (others, distinct) =
      let apart : (a b : CommandMember)
          → interface a ≢ interface b
          → text_eq (key j.name a) (key j.name b) ≡ false =
        λ a b ne. key-apart j.name j.name a b (inr ne) in
      let rest : (a : CommandMember)
          → All (λ other. text_eq (key j.name a) other ≡ false)
              (handles_of (command_bindings (k + 1) joints)) =
        λ a. keys-apart j.name a (k + 1) joints others in
      (
        (
          apart CommandMember.position CommandMember.velocity (λ e. cc),
          (
            apart CommandMember.position CommandMember.effort (λ e. cc),
            rest CommandMember.position,
          ),
        ),
        (
          (
            apart CommandMember.velocity CommandMember.effort (λ e. cc),
            rest CommandMember.velocity,
          ),
          (rest CommandMember.effort, command_bindings-IsSeparate (k + 1) joints distinct),
        ),
      )

  first-IsAmong :
      (k : ℕ) (joints : List (JointData W)) (j : JointData W) (m : CommandMember)
      → IsAmong (bind (key j.name m) k m) (command_bindings k (j ∷ joints))
  unfolding command_bindings
  first-IsAmong k joints j CommandMember.position = inl refl
  first-IsAmong k joints j CommandMember.velocity = inr (inl refl)
  first-IsAmong k joints j CommandMember.effort = inr (inr (inl refl))

  pub command_bindings-IsAmong :
      (k n : ℕ) (joints : List (JointData W)) (i : ℕ) (j : JointData W) (m : CommandMember)
      → k + i ≡ n
      → get_elem? joints i ≡ some j
      → IsAmong (bind (key j.name m) n m) (command_bindings k joints)
  unfolding command_bindings
  command_bindings-IsAmong k n [] i j m at found = ground arith
  command_bindings-IsAmong k n (x ∷ joints) zero j m at found =
      let same : x ≡ j = ground arith in
      let number : k ≡ n = omega arith in
      subst (λ y. IsAmong (bind (key y.name m) n m) (command_bindings k (x ∷ joints))) same
        (subst (λ l. IsAmong (bind (key x.name m) l m) (command_bindings k (x ∷ joints))) number
          (first-IsAmong k joints x m))
  command_bindings-IsAmong k n (x ∷ joints) (suc i) j m at found =
      inr (inr (inr (command_bindings-IsAmong (k + 1) n joints i j m (omega arith) found)))

  pub IsAmong-unsampled :
      (b : Binding CommandMember W) (bindings : List (Binding CommandMember W))
      → IsAmong b (map unsampled bindings)
      → (c : Binding CommandMember W) × IsAmong c bindings × (unsampled c ≡ b)
  IsAmong-unsampled b (c ∷ bindings) (inl here) = (c, inl refl, sym here)
  IsAmong-unsampled b (c ∷ bindings) (inr later) =
      let (x, among, same) = IsAmong-unsampled b bindings later in (x, inr among, same)
  IsAmong-unsampled b [] among = elim among [ ]

  pub handles_of-unsampled :
      (bindings : List (Binding CommandMember W))
      → handles_of (map unsampled bindings) ≡ handles_of bindings
  handles_of-unsampled [] = refl
  handles_of-unsampled (b ∷ bindings) = ap (λ hs. b.handle ∷ hs) (handles_of-unsampled bindings)
