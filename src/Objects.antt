-- ===== src/Objects.antt =====
-- The objects that the handlers store and the messages that they send: api/storage/v1alpha1 and
-- internal/handlers/messages.go. The events are what a handler or controller makes the API server,
-- the message broker and the job counters do.
use sbombastic.Common.{String, GoMap, List, Option}
use sbombastic.Job.{ScanJob}

pub record ImageMetadata : Type 0 where
  pub registry : String
  pub registry_uri : String
  pub repository : String
  pub tag : String
  pub platform : String
  pub digest : String
  pub index_digest : String

pub record ImageLayer : Type 0 where
  pub command : String
  pub digest : String
  pub diff_id : String

-- `owner` is the controller reference that controllerutil.SetControllerReference adds.
pub record Image : Type 0 where
  pub name : String
  pub namespace : String
  pub labels : GoMap String
  pub metadata : ImageMetadata
  pub layers : List ImageLayer
  pub owner : Option String

pub record ObjectRef : Type 0 where
  pub name : String
  pub namespace : String
  pub uid : String

-- A message by its subject; the payload is what the JSON text holds.
pub data Message : Type 0 where
  create_catalog : ObjectRef → Message
  generate_sbom : ObjectRef → ObjectRef → Message
  scan_sbom : ObjectRef → ObjectRef → Message

pub data Event : Type 0 where
  status_updated : ScanJob → Event
  job_patched : ScanJob → Event
  job_deleted : String → String → Event
  job_counted : ScanJob → Event
  image_created : Image → Event
  image_deleted : String → String → Event
  published : String → String → Message → Event
  extended : Event
