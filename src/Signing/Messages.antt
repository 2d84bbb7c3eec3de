-- ===== src/Signing/Messages.antt =====
-- The messages of gen/meshyantsv1/contracts.pb.go that the program signs; all have a field `signature`.
use meshyants.Base.{Bytes, refl, true, Option}
use meshyants.Contracts.{
  TaskAtom, PheromoneRecord, UpdateManifest, QuarantineNotice, CapabilityAdvertisement, JoinGrant,
  ProvisioningManifest,
}
use meshyants.Signing.{Signable}

abbrev pub signable_task : (TaskAtom → Option Bytes) → Signable TaskAtom
signable_task marshal = record {
  has_signature = true;
  signature = λ m. m.signature;
  set_signature = λ s m. record m { signature = s };
  marshal = marshal;
  signature-set = λ s m. refl;
  set-set = λ s t m. refl;
}

abbrev pub signable_pheromone : (PheromoneRecord → Option Bytes) → Signable PheromoneRecord
signable_pheromone marshal = record {
  has_signature = true;
  signature = λ m. m.signature;
  set_signature = λ s m. record m { signature = s };
  marshal = marshal;
  signature-set = λ s m. refl;
  set-set = λ s t m. refl;
}

abbrev pub signable_update : (UpdateManifest → Option Bytes) → Signable UpdateManifest
signable_update marshal = record {
  has_signature = true;
  signature = λ m. m.signature;
  set_signature = λ s m. record m { signature = s };
  marshal = marshal;
  signature-set = λ s m. refl;
  set-set = λ s t m. refl;
}

abbrev pub signable_notice : (QuarantineNotice → Option Bytes) → Signable QuarantineNotice
signable_notice marshal = record {
  has_signature = true;
  signature = λ m. m.signature;
  set_signature = λ s m. record m { signature = s };
  marshal = marshal;
  signature-set = λ s m. refl;
  set-set = λ s t m. refl;
}

abbrev pub signable_capability :
    (CapabilityAdvertisement → Option Bytes) → Signable CapabilityAdvertisement
signable_capability marshal = record {
  has_signature = true;
  signature = λ m. m.signature;
  set_signature = λ s m. record m { signature = s };
  marshal = marshal;
  signature-set = λ s m. refl;
  set-set = λ s t m. refl;
}

abbrev pub signable_grant : (JoinGrant → Option Bytes) → Signable JoinGrant
signable_grant marshal = record {
  has_signature = true;
  signature = λ m. m.signature;
  set_signature = λ s m. record m { signature = s };
  marshal = marshal;
  signature-set = λ s m. refl;
  set-set = λ s t m. refl;
}

abbrev pub signable_manifest : (ProvisioningManifest → Option Bytes) → Signable ProvisioningManifest
signable_manifest marshal = record {
  has_signature = true;
  signature = λ m. m.signature;
  set_signature = λ s m. record m { signature = s };
  marshal = marshal;
  signature-set = λ s m. refl;
  set-set = λ s t m. refl;
}
