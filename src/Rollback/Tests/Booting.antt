-- ===== src/Rollback/Tests/Booting.antt =====
-- The boot of a volume against a node.
use enclavia.Base.{ℕ, ◌≡◌, refl, none, [], ◌∷◌, ok}
use enclavia.Base.Bytes.{Bytes}
use enclavia.Base.BTreeMap
use enclavia.Base.BTreeSet
use enclavia.Machine.{Commitment, apply}
use enclavia.Machine
use enclavia.Wire.Fixtures.{verifier}
use enclavia.Node.{Node, new, observe_attestation, handle_request}
use enclavia.Rollback.{genesis, region_is_blank, boot_decision, get_outcome}
use enclavia.Rollback.BootFlow.{verify_or_register, register_volume}
use enclavia.Rollback.BootFlow.OnNode.{node_oracle, ReadsBack, served_volume_is_pinned}

-- The key 4 was attested, with the control key 9.
abbrev attested : Node
attested = observe_attestation new 4 9

abbrev blank : Bytes
blank = 0 ∷ 0 ∷ []

abbrev unexpected : ℕ
unexpected = 0

abbrev hash : Bytes → Commitment
hash region = 77

first_boot :
    (verify_or_register
      (node_oracle unexpected verifier 4 none)
      verifier.crypto
      verifier.upgrades
      hash
      4
      blank
      attested
      genesis
      none).1
    ≡ ok 0
unfolding verify_or_register register_volume node_oracle observe_attestation region_is_blank
    boot_decision get_outcome handle_request apply Machine.observe_attestation BTreeMap.get
    BTreeMap.insert BTreeSet.contains
first_boot = refl

served_volume_is_pinned_example :
    ReadsBack unexpected verifier 4 none
      (verify_or_register
        (node_oracle unexpected verifier 4 none)
        verifier.crypto
        verifier.upgrades
        hash
        4
        blank
        attested
        genesis
        none).0
      77
      0
served_volume_is_pinned_example =
    served_volume_is_pinned unexpected verifier 4 none hash blank attested genesis none 0 first_boot
