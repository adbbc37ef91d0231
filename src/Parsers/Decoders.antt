-- ===== src/Parsers/Decoders.antt =====
-- The decoders that ingest/parsers.py calls: the MIME, gzip, zip, XML and JSON readers, and the
-- readers of numbers and dates. They are not part of the repository, so a `Decoders` is a
-- parameter of all that uses them; an element tree and a JSON value are what they return.
use dmarc_service.Schema.{AggregateReport, TlsReport}
use dmarc_service.Base.{ℕ, Bool, List, Option}
use dmarc_service.Base.Int.{ℤ}
use dmarc_service.Base.Text.{Text, Bytes}
use dmarc_service.Base.Exec.{Result}

-- one part that `message.walk()` yields
pub record Part : Type 0 where
  pub is_multipart : Bool
  pub payload : Option Bytes
  pub content_type : Text
  pub filename : Option Text

-- one entry of a zip archive, and what reading it gives
pub record ZipEntry : Type 0 where
  pub is_dir : Bool
  pub content : Result Bytes

mutual
  -- tag, text before the first child ("" for none), children
  pub data Element : Type 0 where
    element : Text → Text → Elements → Element

  pub data Elements : Type 0 where
    nil : Elements
    cons : Element → Elements → Elements

mutual
  pub data Json : Type 0 where
    null : Json
    boolean : Bool → Json
    number : ℤ → Json
    string : Text → Json
    array : Items → Json
    object : Fields → Json

  pub data Items : Type 0 where
    nil_items : Items
    cons_item : Json → Items → Items

  pub data Fields : Type 0 where
    nil_fields : Fields
    cons_field : Text → Json → Fields → Fields

pub record Decoders : Type 0 where
  -- list(message_from_bytes(content).walk())
  pub walk : Bytes → List Part
  -- gzip.decompress
  pub gunzip : Bytes → Result Bytes
  -- zipfile.ZipFile(...).infolist() with archive.read
  pub unzip : Bytes → Result (List ZipEntry)
  -- ElementTree.fromstring
  pub xml : Bytes → Result Element
  -- json.loads and json.dumps
  pub loads : Bytes → Result Json
  pub dumps : Json → Text
  -- hashlib.sha256(data).hexdigest()
  pub sha256 : Bytes → Text
  -- int(text)
  pub int_of : Text → Result ℤ
  -- datetime.fromtimestamp(int(float(text)), tz=UTC)
  pub epoch : Text → Result ℕ
  -- datetime.fromisoformat(text)
  pub fromisoformat : Text → Result ℕ
  -- what the database makes of a value that is no text, where it is compared or kept as one
  pub column_value : Json → Text
  -- whether the columns take a row: no null, no number out of range, no text that is too long
  pub takes_aggregate : AggregateReport → Bool
  pub takes_tls : TlsReport → Bool
