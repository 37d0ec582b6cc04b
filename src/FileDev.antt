-- ===== src/FileDev.antt =====
-- The file backend of the device layer, src/lws_dev_file.c. The MP4 reader of libmov is the list of
-- the results that its calls will give; the writer, the file system and the allocator answer
-- through the arguments of `file_open`.
pub mod Config
pub mod Data
pub mod Ops
pub mod Buffer
pub mod Stream
pub mod Union
mod Examples
